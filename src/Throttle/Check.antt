-- ===== src/Throttle/Check.antt =====
-- Which pods the two methods `CheckThrottledFor` let through.
use kube_throttler.Prelude.{string_eq, ◌≡◌, ◌↔◌, Bool, true, false, arith}
use kube_throttler.Prelude.GoMap.{IsMap}
use kube_throttler.Quantity.{Quantity}
use kube_throttler.Pod.{Pod}
use kube_throttler.ResourceAmount.{
  ResourceAmount, no_amount, add, resource_amount_of_pod, is_throttled_for,
}
use kube_throttler.ResourceAmount.Throttled.{Fits, not_throttled_iff}
use kube_throttler.Throttle.{
  Throttle, ClusterThrottle, ThrottleSpecBase, ThrottleStatus, effective_threshold,
  check_throttled_for, cluster_check_throttled_for, not_throttled,
}

module _ {Q : Type 0} ⦃q : Quantity Q⦄ where
  -- what is used and reserved, without and with the pod
  abbrev pub already_used : ThrottleStatus Q → ResourceAmount Q → ResourceAmount Q
  already_used status reserved = add (add no_amount status.used) reserved

  abbrev pub used_with : ThrottleStatus Q → Pod Q → ResourceAmount Q → ResourceAmount Q
  used_with status pod reserved =
      add (add (add no_amount status.used) (resource_amount_of_pod pod)) reserved

  -- A pod fits: alone, into what is left, and beside what is used and reserved; and the status
  -- reports no throttled resource that the pod asks for. `at_once` is the flag of the check
  -- without the pod, `on_equal` of the check with it.
  pub record Admissible (at_once on_equal : Bool) (spec : ThrottleSpecBase Q)
      (status : ThrottleStatus Q) (pod : Pod Q) (reserved : ResourceAmount Q) : Type 0 where
    pub alone : Fits false (effective_threshold spec status) (resource_amount_of_pod pod) pod
    pub open_status : is_throttled_for status.throttled pod ≡ false
    pub room : Fits at_once (effective_threshold spec status) (already_used status reserved) pod
    pub fits : Fits on_equal (effective_threshold spec status) (used_with status pod reserved) pod

module _ {Q L : Type 0} ⦃q : Quantity Q⦄ (thr : Throttle Q L) (pod : Pod Q)
    (reserved : ResourceAmount Q) (on_equal : Bool)
    (d : IsMap (effective_threshold thr.spec.base thr.status).resource_requests) where
  -- A `Throttle` lets a pod through exactly when the pod is admissible: alone, into what is left, and
  -- beside what is used and reserved, it fits the threshold in force, and the status reports none of
  -- its resources as throttled. The requests of that threshold are a map.
  pub check_not_throttled_iff :
      (check_throttled_for thr pod reserved on_equal ≡ not_throttled)
      ↔ Admissible true on_equal thr.spec.base thr.status pod reserved
  unfolding check_throttled_for
  check_not_throttled_iff =
      let t = effective_threshold thr.spec.base thr.status in
      (
        λ h. record {
          alone = (not_throttled_iff t (resource_amount_of_pod pod) false pod d).0 ground arith;
          open_status = ground arith;
          room = (not_throttled_iff t (already_used thr.status reserved) true pod d).0 ground arith;
          fits =
              (not_throttled_iff t (used_with thr.status pod reserved) on_equal pod d).0 ground
                arith;
        },
        λ h.
            let a = (not_throttled_iff t (resource_amount_of_pod pod) false pod d).1 h.alone in
            let c = (not_throttled_iff t (already_used thr.status reserved) true pod d).1 h.room in
            let e =
              (not_throttled_iff t (used_with thr.status pod reserved) on_equal pod d).1 h.fits in
            ground (arith, h.open_status),
      )

module _ {Q L : Type 0} ⦃q : Quantity Q⦄ (thr : ClusterThrottle Q L) (pod : Pod Q)
    (reserved : ResourceAmount Q) (on_equal : Bool)
    (d : IsMap (effective_threshold thr.spec.base thr.status).resource_requests) where
  -- A `ClusterThrottle` lets a pod through exactly when the pod is admissible, where the flag of the
  -- call also rules the check without the pod. The requests of the threshold in force are a map.
  pub cluster_check_not_throttled_iff :
      (cluster_check_throttled_for thr pod reserved on_equal ≡ not_throttled)
      ↔ Admissible on_equal on_equal thr.spec.base thr.status pod reserved
  unfolding cluster_check_throttled_for
  cluster_check_not_throttled_iff =
      let t = effective_threshold thr.spec.base thr.status in
      (
        λ h. record {
          alone = (not_throttled_iff t (resource_amount_of_pod pod) false pod d).0 (ground arith);
          open_status = ground arith;
          room =
              (not_throttled_iff t (already_used thr.status reserved) on_equal pod d).0
                (ground arith);
          fits =
              (not_throttled_iff t (used_with thr.status pod reserved) on_equal pod d).0
                (ground arith);
        },
        λ h.
            let a = (not_throttled_iff t (resource_amount_of_pod pod) false pod d).1 h.alone in
            let c =
              (not_throttled_iff t (already_used thr.status reserved) on_equal pod d).1 h.room in
            let e =
              (not_throttled_iff t (used_with thr.status pod reserved) on_equal pod d).1 h.fits in
            ground (arith, h.open_status),
      )
