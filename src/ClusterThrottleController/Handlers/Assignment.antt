-- ===== src/ClusterThrottleController/Handlers/Assignment.antt =====
-- What the handler of pod updates in clusterthrottle_controller.go does to the reservations.
use kube_throttler.Prelude.{
  ◌==◌, ◌≡◌, refl, ◌∙◌, ap, Bool, not, ◌&&◌, ◌||◌, List, [], ◌∷◌, arith, if◌then◌else◌,
}
use kube_throttler.Prelude.GoMap.{get, has, put, delete, put-IsMap}
use kube_throttler.Prelude.Lists.{any, for_each}
use kube_throttler.Quantity.{Quantity}
use kube_throttler.Pod.{Pod}
use kube_throttler.NamespacedName.{NamespacedName, nn_eq, nn_of_pod}
use kube_throttler.ResourceAmount.{resource_amount_of_pod}
use kube_throttler.Throttle.{ClusterThrottle}
use kube_throttler.Reserved.Entries.{pods_of}
use kube_throttler.ThrottleController.Handlers.{NameSets, common_names, delete_names}
use kube_throttler.ThrottleController.Handlers.Names.{
  IsNameSets, has-put, has-common_names, common_names-IsMap, has-delete_names, delete_names-IsMap,
  moved_cache,
}
use kube_throttler.ClusterThrottleController.{ClusterEnvironment, ClusterState, nn_of}
use kube_throttler.ClusterThrottleController.Handlers.{collect_names, reassign}

module _ {Q L : Type 0} where
  abbrev pub is_name : NamespacedName → ClusterThrottle Q L → Bool
  is_name nn thr = nn_of thr == nn

  abbrev old_round : ClusterThrottle Q L → NameSets → NameSets
  old_round thr n = record n {
    all = put (nn_of thr) tt n.all;
    for_old = put (nn_of thr) tt n.for_old;
  }

  abbrev new_round : ClusterThrottle Q L → NameSets → NameSets
  new_round thr n = record n {
    all = put (nn_of thr) tt n.all;
    for_new = put (nn_of thr) tt n.for_new;
  }

  old_round-IsNameSets :
      (ts : List (ClusterThrottle Q L)) (n : NameSets)
      → IsNameSets n
      → IsNameSets (for_each ts n old_round)
  unfolding for_each
  old_round-IsNameSets [] n d = d
  old_round-IsNameSets (t ∷ ts) n d = old_round-IsNameSets ts (old_round t n) (record {
    all = put-IsMap (nn_of t) tt n.all d.all;
    for_old = put-IsMap (nn_of t) tt n.for_old d.for_old;
    for_new = d.for_new;
  })

  new_round-IsNameSets :
      (ts : List (ClusterThrottle Q L)) (n : NameSets)
      → IsNameSets n
      → IsNameSets (for_each ts n new_round)
  unfolding for_each
  new_round-IsNameSets [] n d = d
  new_round-IsNameSets (t ∷ ts) n d = new_round-IsNameSets ts (new_round t n) (record {
    all = put-IsMap (nn_of t) tt n.all d.all;
    for_old = d.for_old;
    for_new = put-IsMap (nn_of t) tt n.for_new d.for_new;
  })

  old_round-has :
      (nn : NamespacedName) (ts : List (ClusterThrottle Q L)) (n : NameSets)
      → (has nn (for_each ts n old_round).all ≡ (any (is_name nn) ts || has nn n.all))
        × (has nn (for_each ts n old_round).for_old ≡ (any (is_name nn) ts || has nn n.for_old))
        × (has nn (for_each ts n old_round).for_new ≡ has nn n.for_new)
  unfolding for_each
  old_round-has nn [] n = (refl, refl, refl)
  old_round-has nn (t ∷ ts) n =
      let (a, o, w) = old_round-has nn ts (old_round t n) in
      (
        a ∙ ap (λ b. any (is_name nn) ts || b) (has-put (nn_of t) nn n.all) ∙ ground arith,
        o ∙ ap (λ b. any (is_name nn) ts || b) (has-put (nn_of t) nn n.for_old) ∙ ground arith,
        w,
      )

  new_round-has :
      (nn : NamespacedName) (ts : List (ClusterThrottle Q L)) (n : NameSets)
      → (has nn (for_each ts n new_round).all ≡ (any (is_name nn) ts || has nn n.all))
        × (has nn (for_each ts n new_round).for_new ≡ (any (is_name nn) ts || has nn n.for_new))
        × (has nn (for_each ts n new_round).for_old ≡ has nn n.for_old)
  unfolding for_each
  new_round-has nn [] n = (refl, refl, refl)
  new_round-has nn (t ∷ ts) n =
      let (a, o, w) = new_round-has nn ts (new_round t n) in
      (
        a ∙ ap (λ b. any (is_name nn) ts || b) (has-put (nn_of t) nn n.all) ∙ ground arith,
        o ∙ ap (λ b. any (is_name nn) ts || b) (has-put (nn_of t) nn n.for_new) ∙ ground arith,
        w,
      )

  collect_names-IsNameSets : (o w : List (ClusterThrottle Q L)) → IsNameSets (collect_names o w)
  unfolding collect_names
  collect_names-IsNameSets o w = new_round-IsNameSets w _ (
      old_round-IsNameSets o (record { all = []; for_old = []; for_new = [] })
        (record { all = tt; for_old = tt; for_new = tt }))

  pub has-collect_names :
      (o w : List (ClusterThrottle Q L)) (nn : NamespacedName)
      → (has nn (collect_names o w).all ≡ (any (is_name nn) w || any (is_name nn) o))
        × (has nn (collect_names o w).for_old ≡ any (is_name nn) o)
        × (has nn (collect_names o w).for_new ≡ any (is_name nn) w)
  unfolding collect_names get
  has-collect_names o w nn =
      let empty : NameSets = record { all = []; for_old = []; for_new = [] } in
      ground (arith, old_round-has nn o empty, new_round-has nn w (for_each o empty old_round))

  -- the names on one side only
  has-moved :
      (o w : List (ClusterThrottle Q L)) (nn : NamespacedName)
      → let n = collect_names o w in
        (has nn (delete_names (common_names n) n.for_old)
          ≡ (any (is_name nn) o && not (any (is_name nn) w)))
        × (has nn (delete_names (common_names n) n.for_new)
            ≡ (any (is_name nn) w && not (any (is_name nn) o)))
  has-moved o w nn =
      let n = collect_names o w in
      let d = collect_names-IsNameSets o w in
      ground (
        arith,
        has-collect_names o w nn,
        has-common_names n nn d.all,
        has-delete_names (common_names n) n.for_old nn (common_names-IsMap n),
        has-delete_names (common_names n) n.for_new nn (common_names-IsMap n),
      )

module _ {Q L Store : Type 0} ⦃q : Quantity Q⦄ (env : ClusterEnvironment Q L Store) where
  -- After the handler of pod updates has found the cluster throttles that concern the old pod and
  -- those that concern the new one, the new pod is reserved with its amount on each that concerns
  -- only the new one, is no longer reserved on those that concern only the old one, and the
  -- reservations of every other cluster throttle, the common ones included, are as they were.
  pub cluster_pods_of-reassign :
      (pod : Pod Q) (for_old for_new : List (ClusterThrottle Q L)) (s : ClusterState Q L Store)
      (nn : NamespacedName)
      → pods_of nn (reassign env pod for_old for_new s).cache ≡ (
          if any (is_name nn) for_new && not (any (is_name nn) for_old)
          then put (nn_of_pod pod) (resource_amount_of_pod pod) (pods_of nn s.cache)
          else if any (is_name nn) for_old && not (any (is_name nn) for_new)
          then delete (nn_of_pod pod) (pods_of nn s.cache)
          else pods_of nn s.cache)
  unfolding reassign
  cluster_pods_of-reassign pod for_old for_new s nn =
      let n = collect_names for_old for_new in
      let common = common_names n in
      let d = collect_names-IsNameSets for_old for_new in
      let (left, come) = has-moved for_old for_new nn in
      moved_cache s.cache pod (delete_names common n.for_old) (delete_names common n.for_new) nn
        (delete_names-IsMap common n.for_old d.for_old)
        (delete_names-IsMap common n.for_new d.for_new) (rw (left, come) (ground arith))
      ∙ rw (left, come) refl
