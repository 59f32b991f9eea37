-- ===== src/ThrottleController/Reconcile.antt =====
-- `reconcile` of throttle_controller.go: the status of a throttle is brought up to date, and what
-- the status counts is no longer reserved.
pub mod Status
pub mod Done
pub mod Outcome
pub mod Kept
use kube_throttler.Prelude.{
  String, Bool, true, false, not, ◌||◌, Option, none, some, List, [], ◌∷◌, ◌++◌, if◌then◌else◌,
}
use kube_throttler.Prelude.Lists.{for_each}
use kube_throttler.Quantity.{Quantity}
use kube_throttler.Errors.{Error, external, not_found, wrap, Result, ok, err}
use kube_throttler.Pod.{Pod}
use kube_throttler.ResourceAmount.{
  ResourceAmount, no_amount, add, resource_amount_of_pod, is_throttled,
}
use kube_throttler.Throttle.{Time, CalculatedThreshold, Throttle, ThrottleStatus}
use kube_throttler.ThrottleSpec.{calculate_threshold, next_override_happens_in}
use kube_throttler.Reserved.{ReservedResourceAmounts}
use kube_throttler.Controller.{object, enqueue_after, handle_error}
use kube_throttler.ThrottleController.{
  Environment, State, nn_of, affected_pods, un_reserve_on_throttle,
}

-- `apierrors.IsNotFound`
abbrev pub is_not_found : Error → Bool
is_not_found not_found = true
is_not_found _ = false

module _ {Q L Store : Type 0} ⦃q : Quantity Q⦄ (env : Environment Q L Store) where
  unfoldable pub used_by : List (Pod Q) → ResourceAmount Q
  used_by pods = for_each pods no_amount (λ p used. add used (resource_amount_of_pod p))

  -- the old threshold, unless its amounts or its messages differ from those now calculated
  unfoldable pub current_threshold :
      CalculatedThreshold Q → CalculatedThreshold Q → CalculatedThreshold Q
  current_threshold old calculated =
      if not (env.same_amount old.threshold calculated.threshold)
        || not (env.same_messages old.messages calculated.messages)
      then calculated
      else old

  -- `newStatus`
  unfoldable pub new_status : Time → Throttle Q L → List (Pod Q) → ThrottleStatus Q
  unfolding used_by current_threshold
  new_status now thr pods =
      let used = used_by pods in
      let calculated = calculate_threshold env.parse thr.spec.base now in
      let current = current_threshold thr.status.calculated_threshold calculated in
      record {
        calculated_threshold = current;
        throttled = is_throttled current.threshold used true;
        used = used;
      }

  -- `unreserveAffectedPods`
  unfoldable pub unreserve_affected_pods :
      Throttle Q L → List (Pod Q) → ReservedResourceAmounts Q → ReservedResourceAmounts Q
  unfolding un_reserve_on_throttle
  unreserve_affected_pods thr pods c =
      for_each pods c (λ p c'. (un_reserve_on_throttle env p thr c').0)

  -- from the end of the two branches on
  unfoldable pub wake_up :
      Time → Throttle Q L → State Q L Store → Result (Unit {0}) × State Q L Store
  unfolding enqueue_after
  wake_up now thr s = elim (next_override_happens_in env.parse thr.spec.base now) [
    | err e ↦ (err e, s)
    | ok next ↦ elim next [
      | none ↦ (ok tt, s)
      | some d ↦ (ok tt, record s { log = enqueue_after env.key_of (object (nn_of thr)) d s.log })
    ]
  ]

  -- the branch where the status has changed; `thr` is written through the lister's pointer
  -- before the client is asked to update it
  unfoldable pub update_changed :
      Time → Throttle Q L → List (Pod Q) → State Q L Store → Result (Unit {0}) × State Q L Store
  unfolding wake_up unreserve_affected_pods
  update_changed now thr pods s =
      let written = record s {
        throttles = env.write_status s.throttles thr;
        recorded = s.recorded ++ thr ∷ [];
        updates = s.updates ++ thr ∷ [];
      } in
      elim (env.update_status thr) [
        | err e ↦ (
          err e,
          record written { log = handle_error (wrap "failed to update Throttle status" e) s.log },
        )
        | ok updated ↦
            wake_up now updated
              (record written { cache = unreserve_affected_pods updated pods s.cache })
      ]

  -- the branch where it has not
  unfoldable pub keep_unchanged :
      Time → Throttle Q L → List (Pod Q) → State Q L Store → Result (Unit {0}) × State Q L Store
  unfolding wake_up unreserve_affected_pods
  keep_unchanged now thr pods s = wake_up now thr (record s {
    recorded = s.recorded ++ thr ∷ [];
    cache = unreserve_affected_pods thr pods s.cache;
  })

  -- the rest of `reconcile`, once the throttle and its pods are found
  unfoldable pub reconcile_throttle :
      Time
      → Throttle Q L
      → List (Pod Q) × List (Pod Q)
      → State Q L Store
      → Result (Unit {0}) × State Q L Store
  unfolding new_status update_changed keep_unchanged
  reconcile_throttle now thr pods s =
      let status = new_status now thr pods.0 in
      if not (env.same_status thr.status status)
      then update_changed now (record thr { status = status }) (pods.0 ++ pods.1) s
      else keep_unchanged now thr (pods.0 ++ pods.1) s

  unfoldable pub reconcile : Time → String → State Q L Store → Result (Unit {0}) × State Q L Store
  unfolding reconcile_throttle
  reconcile now key s = elim (env.split_key key) [
    | err e ↦ (err e, record s { log = handle_error (external "invalid resource key") s.log })
    | ok (namespace, name) ↦ elim (env.get_throttle s.throttles namespace name) [
      | err e ↦ if is_not_found e then (ok tt, s) else (err e, s)
      | ok thr ↦ elim (affected_pods env thr) [
        | err e ↦ (err e, s)
        | ok pods ↦ reconcile_throttle now thr pods s
      ]
    ]
  ]
