-- ===== src/Plugin/Scheduling/Budget.antt =====
-- What the scheduler's cycles of plugin.go keep of a throttle's threshold.
use kube_throttler.Prelude.{
  string_eq, ◌==◌, String, ◌≡◌, sym, ◌∙◌, ap, subst, Bool, true, false, Option, none, some, List,
  arith, if◌then◌else◌,
}
use kube_throttler.Prelude.Int.{ℤ, ◌+ℤ◌, ◌≤ℤ◌}
use kube_throttler.Prelude.GoMap.{IsMap}
use kube_throttler.Prelude.Lists.{All, any}
use kube_throttler.Prelude.Steps.{Run, run_inv}
use kube_throttler.Quantity.{Quantity}
use kube_throttler.Errors.{ok}
use kube_throttler.Pod.{Pod}
use kube_throttler.NamespacedName.{nn_eq}
use kube_throttler.ResourceAmount.{resource_amount_of_pod}
use kube_throttler.ResourceList.Entries.{amount_of}
use kube_throttler.Throttle.{Throttle, effective_threshold}
use kube_throttler.Throttle.Room.{used_of, asked}
use kube_throttler.Reserved.{ReservedResourceAmounts}
use kube_throttler.Reserved.Budget.{NonNegativeAt, reserved_at, InBudget, InBudget-same}
use kube_throttler.ThrottleController
use kube_throttler.ThrottleController.{
  Environment, State, nn_of, affected_throttles, should_count_in,
}
use kube_throttler.ThrottleController.Budget.{
  IsThe, found-room, reserve-InBudget, un_reserve-InBudget,
}
use kube_throttler.ThrottleController.Handlers.Kept.{
  reserve-throttles, un_reserve-throttles, on_pod_add-kept, on_pod_delete-kept,
}
use kube_throttler.ThrottleController.Handlers.{on_pod_update}
use kube_throttler.ThrottleController.Handlers.SameLabels.{
  on_pod_update-pods_of, on_pod_update-throttles,
}
use kube_throttler.ThrottleController.Events.Reached.{on_pod_update-Formed}
use kube_throttler.ClusterThrottleController.{ClusterEnvironment}
use kube_throttler.Plugin.{KubeThrottler, success, pre_filter, reserve, unreserve}
use kube_throttler.Plugin.Verdict.{pre_filter-success_iff}
use kube_throttler.Plugin.Scheduling.{
  Scheduler, Cycle, let_through, refuse, give_up, take, release, add, update, delete, pod_added,
  pod_updated, pod_deleted,
}
use kube_throttler.Plugin.Scheduling.Verdicts.{
  unreserve-caches, pre_filter-controllers, pre_filter-found,
}

module _ {Q L Store ClusterStore : Type 0} ⦃q : Quantity Q⦄ (env : Environment Q L Store)
    (cluster_env : ClusterEnvironment Q L ClusterStore) (thr : Throttle Q L) (name : String) (t : ℤ)
    (store : Store) where
  abbrev Kept : ℤ → ReservedResourceAmounts Q → Type 0
  Kept base c = InBudget (nn_of thr) name base t c

  -- There is room for a pod that waits, if the throttle is among those found for it.
  abbrev HasRoom : Option (Pod Q) → ReservedResourceAmounts Q → Type 0
  HasRoom none c = Unit
  HasRoom (some pod) c =
      NonNegativeAt name (resource_amount_of_pod pod)
      × (throttles : List (Throttle Q L)) × (affected_throttles env store pod ≡ ok throttles)
      × (any (λ x. nn_of x == nn_of thr) throttles ≡ true
          → Kept (used_of name thr.status +ℤ asked name pod) c)

  record Safe (s : Scheduler Q L Store ClusterStore) : Type 0 where
    same : s.plugin.throttle_ctr.throttles ≡ store
    fits : Kept (used_of name thr.status) s.plugin.throttle_ctr.cache
    room : HasRoom s.waiting s.plugin.throttle_ctr.cache

  -- A controller that has the same throttles, and a cache that keeps what the old one kept.
  Safe-step :
      (w : Option (Pod Q)) (pl pl' : KubeThrottler Q L Store ClusterStore)
      → pl'.throttle_ctr.throttles ≡ pl.throttle_ctr.throttles
      → ((base : ℤ) → Kept base pl.throttle_ctr.cache → Kept base pl'.throttle_ctr.cache)
      → Safe (record { waiting = w; plugin = pl })
      → Safe (record { waiting = w; plugin = pl' })
  Safe-step none pl pl' e keep safe = record {
    same = e ∙ safe.same;
    fits = keep _ safe.fits;
    room = tt;
  }
  Safe-step (some pod) pl pl' e keep safe =
      let (n, throttles, found, room) = safe.room in
      record {
        same = e ∙ safe.same;
        fits = keep _ safe.fits;
        room = (n, throttles, found, λ h. keep _ (room h));
      }

  Safe-let_through :
      (pod : Pod Q) (pl : KubeThrottler Q L Store ClusterStore)
      → IsMap (effective_threshold thr.spec.base thr.status).resource_requests
      → IsMap thr.status.used.resource_requests
      → amount_of name (effective_threshold thr.spec.base thr.status).resource_requests ≡ some t
      → ((p : Pod Q) (throttles : List (Throttle Q L))
          → affected_throttles env store p ≡ ok throttles
          → All (IsThe env thr name t) throttles)
      → NonNegativeAt name (resource_amount_of_pod pod)
      → (pre_filter env cluster_env pod pl).0 ≡ success
      → Safe (record { waiting = none; plugin = pl })
      → Safe (record { waiting = some pod; plugin = pl })
  Safe-let_through pod pl m u e identify n passed safe =
      let ((throttles, found), (cluster_throttles, cluster_found)) =
        pre_filter-found env cluster_env pod pl passed in
      let found' = ap (λ st. affected_throttles env st pod) (sym safe.same) ∙ found in
      let all_pass =
        ((pre_filter-success_iff env cluster_env pod pl throttles cluster_throttles found
            cluster_found).0
          passed).0 in
      record {
        same = safe.same;
        fits = safe.fits;
        room = (
          n,
          throttles,
          found',
          λ h. record {
            formed = safe.fits.formed;
            counted = safe.fits.counted;
            within =
                found-room env thr name t pl.throttle_ctr.cache pod throttles m u e safe.fits
                  (identify pod throttles found') all_pass h;
          },
        );
      }

  Safe-take :
      (pod : Pod Q) (pl : KubeThrottler Q L Store ClusterStore)
      → Safe (record { waiting = some pod; plugin = pl })
      → Safe (record { waiting = none; plugin = (reserve env cluster_env pod pl).1 })
  unfolding reserve
  Safe-take pod pl safe =
      let (n, throttles, found, room) = safe.room in
      let s : State Q L Store = pl.throttle_ctr in
      record {
        same = reserve-throttles env pod s ∙ safe.same;
        fits =
            reserve-InBudget env thr name t pod s throttles
              (ap (λ st. affected_throttles env st pod) safe.same ∙ found) (λ h. (room h).within) n
              safe.fits;
        room = tt;
      }

  Safe-release :
      (w : Option (Pod Q)) (pod : Pod Q) (pl : KubeThrottler Q L Store ClusterStore)
      → Safe (record { waiting = w; plugin = pl })
      → Safe (record { waiting = w; plugin = unreserve env cluster_env pod pl })
  unfolding unreserve
  Safe-release w pod pl =
      Safe-step w pl (unreserve env cluster_env pod pl)
        (ground (arith, un_reserve-throttles env pod pl.throttle_ctr))
        (λ base b.
          subst (Kept base) (sym (unreserve-caches env cluster_env pod pl).0)
            (un_reserve-InBudget env thr name t base pod pl.throttle_ctr b))

  Safe-delete :
      (w : Option (Pod Q)) (pod : Pod Q) (pl : KubeThrottler Q L Store ClusterStore)
      → Safe (record { waiting = w; plugin = pl })
      → Safe (record { waiting = w; plugin = pod_deleted env cluster_env pod pl })
  Safe-delete w pod pl =
      let s : State Q L Store = pl.throttle_ctr in
      let k = on_pod_delete-kept env pod s in
      Safe-step w pl (pod_deleted env cluster_env pod pl) k.1 (λ base b.
        subst (Kept base) (sym k.0) (
          choose base (should_count_in env pod) s.cache
            (ThrottleController.un_reserve env pod s).1.cache b
            (un_reserve-InBudget env thr name t base pod s b)))
    where
      choose :
          (base : ℤ) (x : Bool) (c c' : ReservedResourceAmounts Q)
          → Kept base c
          → Kept base c'
          → Kept base (if x then c' else c)
      choose base true c c' b b' = b'
      choose base false c c' b b' = b

  Safe-add :
      (w : Option (Pod Q)) (pod : Pod Q) (pl : KubeThrottler Q L Store ClusterStore)
      → Safe (record { waiting = w; plugin = pl })
      → Safe (record { waiting = w; plugin = pod_added env cluster_env pod pl })
  Safe-add w pod pl =
      let k = on_pod_add-kept env pod pl.throttle_ctr in
      Safe-step w pl (pod_added env cluster_env pod pl) k.1
        (λ base b. subst (Kept base) (sym k.0) b)

  Safe-update :
      (w : Option (Pod Q)) (old_pod new_pod : Pod Q) (pl : KubeThrottler Q L Store ClusterStore)
      → old_pod.labels ≡ new_pod.labels
      → old_pod.namespace ≡ new_pod.namespace
      → Safe (record { waiting = w; plugin = pl })
      → Safe (record { waiting = w; plugin = pod_updated env cluster_env old_pod new_pod pl })
  Safe-update w old_pod new_pod pl labels namespace safe =
      let s : State Q L Store = pl.throttle_ctr in
      let s' : State Q L Store = on_pod_update env old_pod new_pod s in
      Safe-step w pl (pod_updated env cluster_env old_pod new_pod pl)
        (on_pod_update-throttles env old_pod new_pod s)
        (λ base b.
          InBudget-same (nn_of thr) name base t s.cache s'.cache
            (on_pod_update-Formed env old_pod new_pod s b.formed)
            (on_pod_update-pods_of env old_pod new_pod labels s (nn_of thr) namespace) b)
        safe

  Safe-filter :
      (w : Option (Pod Q)) (pod : Pod Q) (pl : KubeThrottler Q L Store ClusterStore)
      → Safe (record { waiting = w; plugin = pl })
      → Safe (record { waiting = w; plugin = (pre_filter env cluster_env pod pl).1 })
  Safe-filter w pod pl =
      let k = (pre_filter-controllers env cluster_env pod pl).0 in
      Safe-step w pl (pre_filter env cluster_env pod pl).1
        (ap (λ (s : State Q L Store). s.throttles) k)
        (λ base b. subst (λ (s : State Q L Store). Kept base s.cache) (sym k) b)

  -- If a throttle's threshold names a resource, the amounts of the threshold and of the use are
  -- maps, the lister gives nothing else by the throttle's name, no pod that the API server admits
  -- asks for a negative amount, and used and reserved together are within the threshold in a
  -- well-formed cache at the start, where no pod waits, then they are so in every state that is
  -- reached by the scheduler's cycles, of admitted pods, and by the handlers of pods that are added,
  -- deleted, or updated without a change of their labels. The throttles and their statuses stay as
  -- they are on the way, and workers do not run.
  pub never_over_committed :
      (Admitted : Pod Q → Type 0) (pl : KubeThrottler Q L Store ClusterStore)
      → IsMap (effective_threshold thr.spec.base thr.status).resource_requests
      → IsMap thr.status.used.resource_requests
      → amount_of name (effective_threshold thr.spec.base thr.status).resource_requests ≡ some t
      → ((pod : Pod Q) (throttles : List (Throttle Q L))
          → affected_throttles env store pod ≡ ok throttles
          → All (λ other. nn_of other ≡ nn_of thr → other ≡ thr) throttles)
      → ((pod : Pod Q) → Admitted pod → NonNegativeAt name (resource_amount_of_pod pod))
      → pl.throttle_ctr.throttles ≡ store
      → InBudget (nn_of thr) name (used_of name thr.status) t pl.throttle_ctr.cache
      → (s : Scheduler Q L Store ClusterStore)
      → Run (Cycle env cluster_env Admitted) (record { waiting = none; plugin = pl }) s
      → used_of name thr.status +ℤ reserved_at (nn_of thr) name s.plugin.throttle_ctr.cache ≤ℤ t
  never_over_committed Admitted pl m u e identify non_negative same fits s run =
      (run_inv Safe keep (record { same = same; fits = fits; room = tt }) run).fits.within
    where
      keep :
          (s s' : Scheduler Q L Store ClusterStore)
          → Cycle env cluster_env Admitted s s'
          → Safe s
          → Safe s'
      keep _ _ (let_through pod pl n passed) safe =
          Safe-filter (some pod) pod pl
            (Safe-let_through pod pl m u e identify (non_negative pod n) passed safe)
      keep _ _ (refuse pod pl) safe = Safe-filter none pod pl safe
      keep _ _ (give_up pod pl) safe = record { same = safe.same; fits = safe.fits; room = tt }
      keep _ _ (take pod pl) safe = Safe-take pod pl safe
      keep _ _ (release w pod pl) safe = Safe-release w pod pl safe
      keep _ _ (add w pod pl) safe = Safe-add w pod pl safe
      keep _ _ (update w old_pod new_pod pl labels namespace) safe =
          Safe-update w old_pod new_pod pl labels namespace safe
      keep _ _ (delete w pod pl) safe = Safe-delete w pod pl safe
