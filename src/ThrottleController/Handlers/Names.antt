-- ===== src/ThrottleController/Handlers/Names.antt =====
-- The sets of names that the handlers of pod updates in throttle_controller.go and
-- clusterthrottle_controller.go make, and a cache moved between them.
use kube_throttler.Prelude.{
  ◌==◌, ◌≡◌, refl, ◌∙◌, ap, Bool, true, false, not, ◌&&◌, ◌||◌, none, some, [], ◌∷◌, arith, is_some,
  if◌then◌else◌,
}
use kube_throttler.Prelude.GoMap.{
  get, has, put, delete, IsMap, get-put, get-delete, put-IsMap, delete-IsMap, get-for_range,
  for_range_inv,
}
use kube_throttler.Quantity.{Quantity}
use kube_throttler.Pod.{Pod}
use kube_throttler.NamespacedName.{NamespacedName, nn_eq, nn_of_pod}
use kube_throttler.ResourceAmount.{resource_amount_of_pod}
use kube_throttler.Reserved.{ReservedResourceAmounts, NameSet, move_throttle_assignment_for_pods}
use kube_throttler.Reserved.Entries.{pods_of}
use kube_throttler.Reserved.Moves.{pods_of-move}
use kube_throttler.ThrottleController.Handlers.{NameSets, is_empty, common_names, delete_names}

pub record IsNameSets (n : NameSets) : Type 0 where
  pub all : IsMap n.all
  pub for_old : IsMap n.for_old
  pub for_new : IsMap n.for_new

pub has-put : (k j : NamespacedName) (m : NameSet) → has j (put k tt m) ≡ ((k == j) || has j m)
has-put k j m = ground (arith, get-put k j tt m)

module _ (n : NameSets) (nn : NamespacedName) where
  pub has-common_names :
      IsMap n.all
      → has nn (common_names n) ≡ (has nn n.all && (has nn n.for_old && has nn n.for_new))
  unfolding common_names get
  has-common_names d =
      ap is_some (
        get-for_range n.all
          (λ k _ common. if has k n.for_old && has k n.for_new then put k tt common else common)
          (λ k o _. if has k n.for_old && has k n.for_new then some tt else o)
          (λ k w m j. ground (arith, get-put k j tt m, nn_eq.beq_iff k j)) d [] nn)
      ∙ ground arith

pub common_names-IsMap : (n : NameSets) → IsMap (common_names n)
unfolding common_names
common_names-IsMap n =
    for_range_inv IsMap n.all
      (λ k _ common. if has k n.for_old && has k n.for_new then put k tt common else common)
      (λ k v m d. go k m d (has k n.for_old && has k n.for_new)) [] tt
  where
    go :
        (k : NamespacedName) (m : NameSet)
        → IsMap m
        → (b : Bool) → IsMap (if b then put k tt m else m)
    go k m d true = put-IsMap k tt m d
    go k m d false = d

pub has-delete_names :
    (common names : NameSet) (nn : NamespacedName)
    → IsMap common
    → has nn (delete_names common names) ≡ (has nn names && not (has nn common))
unfolding delete_names
has-delete_names common names nn d =
    ap is_some (
      get-for_range common (λ k _ m. delete k m) (λ k o _. none) (λ k w m j. get-delete k j m) d
        names nn)
    ∙ ground arith

pub delete_names-IsMap : (common names : NameSet) → IsMap names → IsMap (delete_names common names)
unfolding delete_names
delete_names-IsMap common names h =
    for_range_inv IsMap common (λ k _ m. delete k m) (λ k v m d. delete-IsMap k m d) names h

pub moved_cache :
    {Q : Type 0} ⦃q : Quantity Q⦄ (c : ReservedResourceAmounts Q) (pod : Pod Q)
    (from_thrs to_thrs : NameSet) (nn : NamespacedName)
    → IsMap from_thrs
    → IsMap to_thrs
    → (has nn from_thrs && has nn to_thrs) ≡ false
    → pods_of nn (
        if not (is_empty from_thrs) || not (is_empty to_thrs)
        then move_throttle_assignment_for_pods c pod from_thrs to_thrs
        else c)
      ≡ (if has nn to_thrs
          then put (nn_of_pod pod) (resource_amount_of_pod pod) (pods_of nn c)
          else if has nn from_thrs
          then delete (nn_of_pod pod) (pods_of nn c)
          else pods_of nn c)
unfolding get
moved_cache c pod [] [] nn d d' e = refl
moved_cache c pod [] (t ∷ ts) nn d d' e = pods_of-move c pod [] (t ∷ ts) nn d d' ∙ ground arith
moved_cache c pod (f ∷ fs) ts nn d d' e = pods_of-move c pod (f ∷ fs) ts nn d d' ∙ ground arith
