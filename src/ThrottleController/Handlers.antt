-- ===== src/ThrottleController/Handlers.antt =====
-- The event handlers that `mustSetupEventHandler` of throttle_controller.go registers.
pub mod Names
pub mod Assignment
pub mod Enqueued
pub mod Kept
pub mod SameLabels
use kube_throttler.Prelude.{
  String, Bool, true, false, not, ◌&&◌, ◌||◌, Option, none, some, List, [], ◌∷◌, ◌++◌,
  if◌then◌else◌,
}
use kube_throttler.Prelude.GoMap.{GoMap, get, has, put, delete, for_range}
use kube_throttler.Prelude.Lists.{for_each}
use kube_throttler.Quantity.{Quantity}
use kube_throttler.Errors.{Error, wrap, Result, ok, err, ◌>>=◌}
use kube_throttler.Pod.{Pod, is_scheduled}
use kube_throttler.Throttle.{Throttle}
use kube_throttler.NamespacedName.{NamespacedName, nn_eq}
use kube_throttler.Reserved.{NameSet, move_throttle_assignment_for_pods}
use kube_throttler.Controller.{Deleted, assert_type, Log, object, explicit, enqueue, handle_error}
use kube_throttler.ThrottleController.{
  Environment, State, nn_of, is_responsible_for, should_count_in, affected_throttles, un_reserve,
}

-- The name sets of the handler of pod updates.
pub record NameSets : Type 0 where
  pub all : NameSet
  pub for_old : NameSet
  pub for_new : NameSet

abbrev pub is_empty : NameSet → Bool
is_empty [] = true
is_empty (n ∷ ns) = false

-- the names in `throttleNNs` that both sides have
unfoldable pub common_names : NameSets → NameSet
common_names n =
    for_range {S = NameSet} n.all []
      λ nn _ common. if has nn n.for_old && has nn n.for_new then put nn tt common else common

-- `for nn := range common { delete(names, nn) }`
unfoldable pub delete_names : NameSet → NameSet → NameSet
delete_names common names = for_range common names (λ nn _ m. delete nn m)

module _ {Q L : Type 0} where
  unfoldable pub collect_names : List (Throttle Q L) → List (Throttle Q L) → NameSets
  collect_names throttles_for_old throttles_for_new =
      let old =
        for_each throttles_for_old (record { all = []; for_old = []; for_new = [] })
          λ thr (n : NameSets). record n {
            all = put (nn_of thr) tt n.all;
            for_old = put (nn_of thr) tt n.for_old;
          } in
      for_each throttles_for_new old
        λ thr n. record n { all = put (nn_of thr) tt n.all; for_new = put (nn_of thr) tt n.for_new }

module _ {Q L Store : Type 0} ⦃q : Quantity Q⦄ (env : Environment Q L Store) where
  -- the three handlers of throttle events, which do the same
  unfoldable pub on_throttle_event : Throttle Q L → State Q L Store → State Q L Store
  unfolding is_responsible_for enqueue
  on_throttle_event thr s =
      if not (is_responsible_for env thr)
      then s
      else record s { log = enqueue env.key_of (object (nn_of thr)) s.log }

  -- `for _, thr := range throttles { c.enqueue(thr) }`
  unfoldable pub enqueue_throttles : List (Throttle Q L) → Log → Log
  unfolding enqueue
  enqueue_throttles throttles l =
      for_each throttles l (λ thr m. enqueue env.key_of (object (nn_of thr)) m)

  unfoldable pub enqueue_affected : Pod Q → State Q L Store → State Q L Store
  unfolding enqueue_throttles
  enqueue_affected pod s = elim (affected_throttles env s.throttles pod) [
    | err e ↦ record s {
      log = handle_error (wrap "Failed to get affected throttles for pod" e) s.log;
    }
    | ok throttles ↦ record s { log = enqueue_throttles throttles s.log }
  ]

  unfoldable pub on_pod_add : Pod Q → State Q L Store → State Q L Store
  unfolding should_count_in enqueue_affected
  on_pod_add pod s = if not (should_count_in env pod) then s else enqueue_affected pod s

  -- the rest of the handler of pod updates, once both lists of throttles are found
  unfoldable pub reassign :
      Pod Q → List (Throttle Q L) → List (Throttle Q L) → State Q L Store → State Q L Store
  unfolding collect_names common_names delete_names enqueue
  reassign new_pod throttles_for_old throttles_for_new s =
      let n = collect_names throttles_for_old throttles_for_new in
      let common = common_names n in
      let from_thrs = delete_names common n.for_old in
      let to_thrs = delete_names common n.for_new in
      let cache =
        if not (is_empty from_thrs) || not (is_empty to_thrs)
        then move_throttle_assignment_for_pods s.cache new_pod from_thrs to_thrs
        else s.cache in
      record s {
        cache = cache;
        log = for_range n.all s.log (λ nn _ l. enqueue env.key_of (explicit nn) l);
      }

  unfoldable pub on_pod_update : Pod Q → Pod Q → State Q L Store → State Q L Store
  unfolding should_count_in reassign
  on_pod_update old_pod new_pod s =
      if not (should_count_in env old_pod) && not (should_count_in env new_pod)
      then s
      else elim (affected_throttles env s.throttles old_pod) [
        | err e ↦ record s {
          log = handle_error (wrap "fail to get affected throttles for pod" e) s.log;
        }
        | ok for_old ↦ elim (affected_throttles env s.throttles new_pod) [
          | err e ↦ record s {
            log = handle_error (wrap "fail to get affected throttles for pod" e) s.log;
          }
          | ok for_new ↦ reassign new_pod for_old for_new s
        ]
      ]

  -- `if isScheduled(pod) { if err := c.UnReserve(pod); err != nil { … } }`
  unfoldable pub release_deleted : Pod Q → State Q L Store → State Q L Store
  unfolding un_reserve
  release_deleted pod s =
      if is_scheduled pod
      then (let (r, s') = un_reserve env pod s in
          elim r [
            | err e ↦ record s' { log = handle_error (wrap "Failed to unreserve pod" e) s'.log }
            | ok u ↦ s'
          ])
      else s

  unfoldable pub on_pod_delete : Pod Q → State Q L Store → State Q L Store
  unfolding should_count_in release_deleted enqueue_affected
  on_pod_delete pod s =
      if not (should_count_in env pod) then s else enqueue_affected pod (release_deleted pod s)

  -- the two functions that get what has been deleted
  unfoldable pub delete_throttle :
      Deleted (Throttle Q L) → State Q L Store → Result (State Q L Store)
  unfolding on_throttle_event assert_type
  delete_throttle obj s = do thr ← assert_type obj; ok (on_throttle_event thr s)

  unfoldable pub delete_pod : Deleted (Pod Q) → State Q L Store → Result (State Q L Store)
  unfolding on_pod_delete assert_type
  delete_pod obj s = do pod ← assert_type obj; ok (on_pod_delete pod s)
