-- ===== src/Throttle/Admission.antt =====
-- What the check of a pod promises of a throttle's threshold.
use kube_throttler.Prelude.{string_eq, String, ◌≡◌, false, some}
use kube_throttler.Prelude.Int.{ℤ, pos, ◌+ℤ◌, ◌≤ℤ◌, IsInt64}
use kube_throttler.Prelude.GoMap.{get, IsMap}
use kube_throttler.Quantity.{Quantity}
use kube_throttler.Pod.{Pod}
use kube_throttler.ResourceAmount.{ResourceAmount, resource_amount_of_pod}
use kube_throttler.ResourceAmount.Throttled.{count_of}
use kube_throttler.ResourceList.Entries.{amount_of}
use kube_throttler.Throttle.{Throttle, not_throttled, effective_threshold, check_throttled_for}
use kube_throttler.Throttle.Check.{check_not_throttled_iff}
use kube_throttler.Throttle.Within.{
  WithinThreshold, Admissible-WithinThreshold, total_request, total_count, amount_or_zero,
}

module _ {Q L : Type 0} ⦃q : Quantity Q⦄ (thr : Throttle Q L) (pod : Pod Q)
    (reserved : ResourceAmount Q)
    (threshold-IsMap : IsMap (effective_threshold thr.spec.base thr.status).resource_requests)
    (used-IsMap : IsMap thr.status.used.resource_requests)
    (reserved-IsMap : IsMap reserved.resource_requests)
    (passed : check_throttled_for thr pod reserved false ≡ not_throttled) where
  within : WithinThreshold (effective_threshold thr.spec.base thr.status) thr.status pod reserved
  within =
      Admissible-WithinThreshold thr.spec.base thr.status pod reserved used-IsMap reserved-IsMap
        ((check_not_throttled_iff thr pod reserved false threshold-IsMap).0 passed)

  -- If a throttle lets a pod through, then what is used of a resource, what the pod asks for and
  -- what is reserved add up to at most the threshold, for each resource that the pod asks for and
  -- the threshold names. The amounts of the threshold, of the use and of the reservation are maps.
  pub admitted_requests :
      (name : String) (x : Q) (t : ℤ)
      → get name (resource_amount_of_pod pod).resource_requests ≡ some x
      → q.is_zero x ≡ false
      → amount_of name (effective_threshold thr.spec.base thr.status).resource_requests ≡ some t
      → total_request thr.status pod reserved name ≤ℤ t
  admitted_requests = within.requests

  -- If a throttle lets a pod through, then the pods used, the pod and those reserved are at most
  -- as many as the threshold's count, if it has one and a 64-bit integer holds their number. The
  -- amounts of the threshold, of the use and of the reservation are maps.
  pub admitted_count :
      (t : ℤ)
      → count_of (effective_threshold thr.spec.base thr.status).resource_counts ≡ some t
      → IsInt64 (amount_or_zero (count_of thr.status.used.resource_counts) +ℤ pos 1)
      → IsInt64 (total_count thr.status reserved)
      → total_count thr.status reserved ≤ℤ t
  admitted_count = within.count
