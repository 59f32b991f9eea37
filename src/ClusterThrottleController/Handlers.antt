-- ===== src/ClusterThrottleController/Handlers.antt =====
-- The event handlers that `mustSetupEventHandler` of clusterthrottle_controller.go registers.
pub mod Assignment
pub mod Kept
pub mod SameLabels
use kube_throttler.Prelude.{not, ◌&&◌, ◌||◌, List, [], if◌then◌else◌}
use kube_throttler.Prelude.GoMap.{put, for_range}
use kube_throttler.Prelude.Lists.{for_each}
use kube_throttler.Quantity.{Quantity}
use kube_throttler.Errors.{wrap, ok, err, ◌>>=◌, Result}
use kube_throttler.Pod.{Pod, is_scheduled}
use kube_throttler.Throttle.{ClusterThrottle}
use kube_throttler.NamespacedName.{nn_eq}
use kube_throttler.Reserved.{move_throttle_assignment_for_pods}
use kube_throttler.Controller.{Deleted, assert_type, Log, object, explicit, enqueue, handle_error}
use kube_throttler.ThrottleController.Handlers.{NameSets, is_empty, common_names, delete_names}
use kube_throttler.ClusterThrottleController.{
  ClusterEnvironment, ClusterState, nn_of, is_responsible_for, should_count_in,
  affected_cluster_throttles, un_reserve,
}

module _ {Q L : Type 0} where
  unfoldable pub collect_names : List (ClusterThrottle Q L) → List (ClusterThrottle Q L) → NameSets
  collect_names throttles_for_old throttles_for_new =
      let old =
        for_each throttles_for_old (record { all = []; for_old = []; for_new = [] })
          λ thr (n : NameSets). record n {
            all = put (nn_of thr) tt n.all;
            for_old = put (nn_of thr) tt n.for_old;
          } in
      for_each throttles_for_new old
        λ thr n. record n { all = put (nn_of thr) tt n.all; for_new = put (nn_of thr) tt n.for_new }

module _ {Q L Store : Type 0} ⦃q : Quantity Q⦄ (env : ClusterEnvironment Q L Store) where
  -- the three handlers of throttle events, which do the same
  unfoldable pub on_throttle_event :
      ClusterThrottle Q L → ClusterState Q L Store → ClusterState Q L Store
  unfolding is_responsible_for enqueue
  on_throttle_event thr s =
      if not (is_responsible_for env thr)
      then s
      else record s { log = enqueue env.key_of (object (nn_of thr)) s.log }

  -- `for _, thr := range throttles { c.enqueue(thr) }`
  unfoldable pub enqueue_throttles : List (ClusterThrottle Q L) → Log → Log
  unfolding enqueue
  enqueue_throttles throttles l =
      for_each throttles l (λ thr m. enqueue env.key_of (object (nn_of thr)) m)

  unfoldable pub enqueue_affected : Pod Q → ClusterState Q L Store → ClusterState Q L Store
  unfolding enqueue_throttles
  enqueue_affected pod s = elim (affected_cluster_throttles env s.throttles pod) [
    | err e ↦ record s {
      log = handle_error (wrap "Failed to get affected clusterthrottles for pod" e) s.log;
    }
    | ok throttles ↦ record s { log = enqueue_throttles throttles s.log }
  ]

  unfoldable pub on_pod_add : Pod Q → ClusterState Q L Store → ClusterState Q L Store
  unfolding should_count_in enqueue_affected
  on_pod_add pod s = if not (should_count_in env pod) then s else enqueue_affected pod s

  -- the rest of the handler of pod updates, once both lists of throttles are found
  unfoldable pub reassign :
      Pod Q
      → List (ClusterThrottle Q L)
      → List (ClusterThrottle Q L)
      → ClusterState Q L Store
      → ClusterState Q L Store
  unfolding collect_names common_names delete_names enqueue
  reassign new_pod throttles_for_old throttles_for_new s =
      let n = collect_names throttles_for_old throttles_for_new in
      let common = common_names n in
      let from_thrs = delete_names common n.for_old in
      let to_thrs = delete_names common n.for_new in
      let cache =
        if not (is_empty from_thrs) || not (is_empty to_thrs)
        then move_throttle_assignment_for_pods s.cache new_pod from_thrs to_thrs
        else s.cache in
      record s {
        cache = cache;
        log = for_range n.all s.log (λ nn _ l. enqueue env.key_of (explicit nn) l);
      }

  unfoldable pub on_pod_update : Pod Q → Pod Q → ClusterState Q L Store → ClusterState Q L Store
  unfolding should_count_in reassign
  on_pod_update old_pod new_pod s =
      if not (should_count_in env old_pod) && not (should_count_in env new_pod)
      then s
      else elim (affected_cluster_throttles env s.throttles old_pod) [
        | err e ↦ record s {
          log = handle_error (wrap "fail to get affected clusterthrottles for pod" e) s.log;
        }
        | ok for_old ↦ elim (affected_cluster_throttles env s.throttles new_pod) [
          | err e ↦ record s {
            log = handle_error (wrap "fail to get affected clusterthrottles for pod" e) s.log;
          }
          | ok for_new ↦ reassign new_pod for_old for_new s
        ]
      ]

  -- `if isScheduled(pod) { if err := c.UnReserve(pod); err != nil { … } }`
  unfoldable pub release_deleted : Pod Q → ClusterState Q L Store → ClusterState Q L Store
  unfolding un_reserve
  release_deleted pod s =
      if is_scheduled pod
      then (let (r, s') = un_reserve env pod s in
          elim r [
            | err e ↦ record s' { log = handle_error (wrap "Failed to unreserve pod" e) s'.log }
            | ok u ↦ s'
          ])
      else s

  unfoldable pub on_pod_delete : Pod Q → ClusterState Q L Store → ClusterState Q L Store
  unfolding should_count_in release_deleted enqueue_affected
  on_pod_delete pod s =
      if not (should_count_in env pod) then s else enqueue_affected pod (release_deleted pod s)

  -- the two functions that get what has been deleted
  unfoldable pub delete_throttle :
      Deleted (ClusterThrottle Q L) → ClusterState Q L Store → Result (ClusterState Q L Store)
  unfolding on_throttle_event assert_type
  delete_throttle obj s = do thr ← assert_type obj; ok (on_throttle_event thr s)

  unfoldable pub delete_pod :
      Deleted (Pod Q) → ClusterState Q L Store → Result (ClusterState Q L Store)
  unfolding on_pod_delete assert_type
  delete_pod obj s = do pod ← assert_type obj; ok (on_pod_delete pod s)
