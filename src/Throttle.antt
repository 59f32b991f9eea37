-- ===== src/Throttle.antt =====
-- pkg/apis/schedule/v1alpha1/throttle_types.go, clusterthrottle_types.go, calculated_threshold.go
-- and the types of the selectors: the specification and the status of a throttle, and the check
-- of a pod against it. `L` is the type of `metav1.LabelSelector`; a time is the number of
-- nanoseconds since Go's zero time.
pub mod Check
pub mod Decision
pub mod Within
pub mod Agreement
pub mod Admission
pub mod Room
use kube_throttler.Prelude.{String, Bool, true, false, List, if◌then◌else◌}
use kube_throttler.Prelude.Int.{ℤ, pos, beq_ℤ}
use kube_throttler.Quantity.{Quantity}
use kube_throttler.Pod.{Pod}
use kube_throttler.Errors.{Error}
use kube_throttler.ResourceAmount.{
  ResourceAmount, IsResourceAmountThrottled, no_amount, add, resource_amount_of_pod, is_throttled,
  is_throttled_for,
}

abbrev pub Time : Type 0
Time = ℤ

-- `t.IsZero()`
abbrev pub is_zero_time : Time → Bool
is_zero_time t = beq_ℤ t (pos 0)

pub record CalculatedThreshold (Q : Type 0) : Type 0 where
  pub threshold : ResourceAmount Q
  pub calculated_at : Time
  pub messages : List Error

pub record TemporaryThresholdOverride (Q : Type 0) : Type 0 where
  pub begin : String
  pub end : String
  pub threshold : ResourceAmount Q

pub record ThrottleSpecBase (Q : Type 0) : Type 0 where
  pub throttler_name : String
  pub threshold : ResourceAmount Q
  pub temporary_threshold_overrides : List (TemporaryThresholdOverride Q)

pub record ThrottleSelectorTerm (L : Type 0) : Type 0 where
  pub pod_selector : L

pub record ThrottleSelector (L : Type 0) : Type 0 where
  pub selector_terms : List (ThrottleSelectorTerm L)

pub record ClusterThrottleSelectorTerm (L : Type 0) : Type 0 where
  pub throttle_selector_term : ThrottleSelectorTerm L
  pub namespace_selector : L

pub record ClusterThrottleSelector (L : Type 0) : Type 0 where
  pub selector_terms : List (ClusterThrottleSelectorTerm L)

pub record ThrottleSpec (Q L : Type 0) : Type 0 where
  pub base : ThrottleSpecBase Q
  pub selector : ThrottleSelector L

pub record ClusterThrottleSpec (Q L : Type 0) : Type 0 where
  pub base : ThrottleSpecBase Q
  pub selector : ClusterThrottleSelector L

pub record ThrottleStatus (Q : Type 0) : Type 0 where
  pub calculated_threshold : CalculatedThreshold Q
  pub throttled : IsResourceAmountThrottled
  pub used : ResourceAmount Q

pub record Throttle (Q L : Type 0) : Type 0 where
  pub namespace : String
  pub name : String
  pub uid : String
  pub spec : ThrottleSpec Q L
  pub status : ThrottleStatus Q

pub record ClusterThrottle (Q L : Type 0) : Type 0 where
  pub namespace : String
  pub name : String
  pub uid : String
  pub spec : ClusterThrottleSpec Q L
  pub status : ThrottleStatus Q

pub data CheckThrottleStatus : Type 0 where
  not_throttled active insufficient pod_requests_exceeds_threshold : CheckThrottleStatus

-- the threshold that a check goes by: the calculated one, once there is one
unfoldable pub effective_threshold :
    {Q : Type 0} → ThrottleSpecBase Q → ThrottleStatus Q → ResourceAmount Q
effective_threshold spec status =
    if is_zero_time status.calculated_threshold.calculated_at
    then spec.threshold
    else status.calculated_threshold.threshold

module _ {Q L : Type 0} ⦃q : Quantity Q⦄ where
  unfoldable pub check_throttled_for :
      Throttle Q L → Pod Q → ResourceAmount Q → Bool → CheckThrottleStatus
  unfolding effective_threshold
  check_throttled_for thr pod reserved_resource_amount is_throttled_on_equal =
      let threshold = effective_threshold thr.spec.base thr.status in
      let already_used = add (add no_amount thr.status.used) reserved_resource_amount in
      let used =
        add (add (add no_amount thr.status.used) (resource_amount_of_pod pod))
          reserved_resource_amount in
      if is_throttled_for (is_throttled threshold (resource_amount_of_pod pod) false) pod
      then pod_requests_exceeds_threshold
      else if is_throttled_for thr.status.throttled pod
      then active
      else if is_throttled_for (is_throttled threshold already_used true) pod
      then active
      else if is_throttled_for (is_throttled threshold used is_throttled_on_equal) pod
      then insufficient
      else not_throttled

  unfoldable pub cluster_check_throttled_for :
      ClusterThrottle Q L → Pod Q → ResourceAmount Q → Bool → CheckThrottleStatus
  unfolding effective_threshold
  cluster_check_throttled_for thr pod reserved_resource_amount is_throttled_on_equal =
      let threshold = effective_threshold thr.spec.base thr.status in
      let already_used = add (add no_amount thr.status.used) reserved_resource_amount in
      let used =
        add (add (add no_amount thr.status.used) (resource_amount_of_pod pod))
          reserved_resource_amount in
      if is_throttled_for (is_throttled threshold (resource_amount_of_pod pod) false) pod
      then pod_requests_exceeds_threshold
      else if is_throttled_for thr.status.throttled pod
      then active
      else if is_throttled_for (is_throttled threshold already_used is_throttled_on_equal) pod
      then active
      else if is_throttled_for (is_throttled threshold used is_throttled_on_equal) pod
      then insufficient
      else not_throttled
