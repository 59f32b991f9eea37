-- ===== src/ClusterThrottleController/Events/Reached.antt =====
-- The cache of reserved amounts of reserved_resource_amounts.go in every state that a controller
-- of clusterthrottle_controller.go reaches.
use kube_throttler.Prelude.{
  string_eq, String, ◌≡◌, sym, subst, not, ◌&&◌, ◌||◌, Option, none, some, List, arith,
  if◌then◌else◌, ◌<◌, ◌^◌, Bool-cases, inl, inr,
}
use kube_throttler.Prelude.Lists.{length}
use kube_throttler.Prelude.Steps.{Run, run_inv}
use kube_throttler.Quantity.{Quantity}
use kube_throttler.Errors.{Result-cases}
use kube_throttler.Pod.{Pod}
use kube_throttler.NamespacedName.{NamespacedName, nn_eq}
use kube_throttler.Throttle.{ClusterThrottle, Time}
use kube_throttler.ResourceAmount.Throttled.{count_of}
use kube_throttler.ResourceList.Entries.{amount_of}
use kube_throttler.Prelude.GoMap.{IsMap}
use kube_throttler.Reserved.{new_reserved_resource_amounts, reserved_resource_amount}
use kube_throttler.Reserved.Entries.{pods_of}
use kube_throttler.Reserved.Total.{sum_requests, number}
use kube_throttler.Reserved.Moves.{IsWellFormed, new-IsWellFormed, reserved_sum, reserved_count}
use kube_throttler.Reserved.Many.{
  add_all-IsWellFormed, remove_all-IsWellFormed, move_throttle_assignment_for_pods-IsWellFormed,
}
use kube_throttler.Controller.{Item, key, other}
use kube_throttler.Controller.Worker.{process_item, process_next_work_item}
use kube_throttler.ClusterThrottleController.{
  ClusterEnvironment, ClusterState, nn_of, affected_cluster_throttles, should_count_in, reserve,
  reserve_on_cluster_throttle, un_reserve, un_reserve_on_cluster_throttle,
}
use kube_throttler.ClusterThrottleController.Reconcile.{reconcile}
use kube_throttler.ClusterThrottleController.Reconcile.Kept.{reconcile-IsWellFormed}
use kube_throttler.ThrottleController.Handlers.{common_names, delete_names, is_empty}
use kube_throttler.ClusterThrottleController.Handlers.{collect_names, reassign, on_pod_update}
use kube_throttler.ClusterThrottleController.Handlers.Kept.{
  on_throttle_event-kept, on_pod_add-kept, on_pod_delete-kept,
}
use kube_throttler.ClusterThrottleController.Events.{
  Event, reserved, unreserved, pod_added, pod_updated, pod_deleted, throttle_changed, worked,
  informed, work,
}

module _ {Q L Store : Type 0} ⦃q : Quantity Q⦄ (env : ClusterEnvironment Q L Store) where
  abbrev pub Formed : ClusterState Q L Store → Type 0
  Formed s = IsWellFormed s.cache

  reserve-Formed :
      (pod : Pod Q) (s : ClusterState Q L Store) → Formed s → Formed (reserve env pod s).1
  unfolding reserve reserve_on_cluster_throttle
  reserve-Formed pod s w = elim (Result-cases (affected_cluster_throttles env s.throttles pod)) [
    | inr (e, failed) ↦ rw (failed, reserve) w
    | inl (throttles, found) ↦
        rw (found, reserve) (add_all-IsWellFormed nn_of pod throttles s.cache w)
  ]

  un_reserve-Formed :
      (pod : Pod Q) (s : ClusterState Q L Store) → Formed s → Formed (un_reserve env pod s).1
  unfolding un_reserve un_reserve_on_cluster_throttle
  un_reserve-Formed pod s w = elim (Result-cases (affected_cluster_throttles env s.throttles pod)) [
    | inr (e, failed) ↦ rw (failed, un_reserve) w
    | inl (throttles, found) ↦
        rw (found, un_reserve) (remove_all-IsWellFormed nn_of pod throttles s.cache w)
  ]

  on_pod_delete-Formed :
      (pod : Pod Q) (s : ClusterState Q L Store)
      → Formed s
      → IsWellFormed (if should_count_in env pod then (un_reserve env pod s).1.cache else s.cache)
  on_pod_delete-Formed pod s w = elim (Bool-cases (should_count_in env pod)) [
    | inl counts ↦ rw (counts) (un_reserve-Formed pod s w)
    | inr out ↦ rw (out) w
  ]

  reassign-Formed :
      (new_pod : Pod Q) (old new : List (ClusterThrottle Q L)) (s : ClusterState Q L Store)
      → Formed s
      → Formed (reassign env new_pod old new s)
  unfolding reassign
  reassign-Formed new_pod old new s w =
      let n = collect_names old new in
      let from_thrs = delete_names (common_names n) n.for_old in
      let to_thrs = delete_names (common_names n) n.for_new in
      elim (Bool-cases (not (is_empty from_thrs) || not (is_empty to_thrs))) [
        | inl moved ↦
            rw (moved, reassign)
              (move_throttle_assignment_for_pods-IsWellFormed s.cache new_pod from_thrs to_thrs w)
        | inr still ↦ rw (still, reassign) w
      ]

  pub on_pod_update-Formed :
      (old_pod new_pod : Pod Q) (s : ClusterState Q L Store)
      → Formed s
      → Formed (on_pod_update env old_pod new_pod s)
  unfolding on_pod_update
  on_pod_update-Formed old_pod new_pod s w =
      elim (Bool-cases (not (should_count_in env old_pod) && not (should_count_in env new_pod))) [
        | inl skipped ↦ rw (skipped, on_pod_update) w
        | inr seen ↦ elim (Result-cases (affected_cluster_throttles env s.throttles old_pod)) [
          | inr (e, failed) ↦ rw (seen, failed, on_pod_update) w
          | inl (old, found) ↦
              elim (Result-cases (affected_cluster_throttles env s.throttles new_pod)) [
                | inr (e, failed) ↦ rw (seen, found, failed, on_pod_update) w
                | inl (new, found') ↦
                    rw (seen, found, found', on_pod_update) (reassign-Formed new_pod old new s w)
              ]
        ]
      ]

  -- What a worker's round leaves in the cache is what `reconcile` leaves there.
  work-cache :
      (now : Time) (k : String) (s : ClusterState Q L Store)
      → (work env now (some (key k)) s).1.cache ≡ (reconcile env now k s).1.cache
  unfolding process_next_work_item process_item
  work-cache now k s = ground arith

  work-Formed :
      (now : Time) (obj : Option Item) (s : ClusterState Q L Store)
      → Formed s
      → Formed (work env now obj s).1
  unfolding process_next_work_item process_item
  work-Formed now none s w = w
  work-Formed now (some other) s w = w
  work-Formed now (some (key k)) s w =
      subst IsWellFormed (sym (work-cache now k s)) (reconcile-IsWellFormed env now k s w)

module _ {Q L Store : Type 0} ⦃q : Quantity Q⦄ where
  Event-Formed :
      (s s' : ClusterState Q L Store) → Event s s' → IsWellFormed s.cache → IsWellFormed s'.cache
  Event-Formed _ _ (reserved env pod s) w = reserve-Formed env pod s w
  Event-Formed _ _ (unreserved env pod s) w = un_reserve-Formed env pod s w
  Event-Formed _ _ (pod_added env pod s) w =
      subst IsWellFormed (sym (on_pod_add-kept env pod s).0) w
  Event-Formed _ _ (pod_updated env old_pod new_pod s) w =
      on_pod_update-Formed env old_pod new_pod s w
  Event-Formed _ _ (pod_deleted env pod s) w =
      subst IsWellFormed (sym (on_pod_delete-kept env pod s).0) (on_pod_delete-Formed env pod s w)
  Event-Formed _ _ (throttle_changed env thr s) w =
      subst IsWellFormed (sym (on_throttle_event-kept env thr s).0) w
  Event-Formed _ _ (worked env now obj s) w = work-Formed env now obj s w
  Event-Formed _ _ (informed store s) w = w

  -- In every state that a controller reaches from one in which nothing is reserved, each pod has at
  -- most one entry on a throttle, what is reserved there of a resource is the sum of what the
  -- entries reserve of it, and the number of pods reserved is the number of entries, if these are
  -- fewer than 2^63.
  cluster_reached_reserved :
      (start s : ClusterState Q L Store) (nn : NamespacedName) (name : String)
      → start.cache ≡ new_reserved_resource_amounts
      → Run Event start s
      → length (pods_of nn s.cache) < 2 ^ 63
      → IsMap (pods_of nn s.cache)
        × (amount_of name (reserved_resource_amount s.cache nn).0.resource_requests
            ≡ sum_requests name none (pods_of nn s.cache))
        × (count_of (reserved_resource_amount s.cache nn).0.resource_counts
            ≡ number (length (pods_of nn s.cache)))
  cluster_reached_reserved start s nn name empty run few =
      let w =
        run_inv (λ (x : ClusterState Q L Store). IsWellFormed x.cache) Event-Formed
          (subst IsWellFormed (sym empty) (new-IsWellFormed _)) run in
      ((w nn).0, reserved_sum s.cache nn name w, reserved_count s.cache nn w few)
