-- ===== src/ResourceAmount.antt =====
-- pkg/apis/schedule/v1alpha1/resource_amount.go: amounts of resources, and whether a threshold is
-- reached. A Go `int` is an integer that wraps around at 64 bits.
pub mod Amounts
pub mod Throttled
use kube_throttler.Prelude.{
  string_eq, String, Bool, true, false, not, Option, none, some, List, [], ◌∷◌, Ordering,
  if◌then◌else◌,
}
use kube_throttler.Prelude.Int.{ℤ, pos, ◌+ℤ◌, ◌-ℤ◌, ltb_ℤ, leb_ℤ, wrap64}
use kube_throttler.Prelude.GoMap.{GoMap, get, put, for_range}
use kube_throttler.Quantity.{Quantity}
use kube_throttler.Pod.{Pod, ResourceList}
use kube_throttler.ResourceList

pub record ResourceCounts : Type 0 where
  pub pod : ℤ

pub record ResourceAmount (Q : Type 0) : Type 0 where
  pub resource_counts : Option ResourceCounts
  pub resource_requests : ResourceList Q

pub record IsResourceCountThrottled : Type 0 where
  pub pod : Bool

pub record IsResourceAmountThrottled : Type 0 where
  pub resource_counts : IsResourceCountThrottled
  pub resource_requests : GoMap String Bool

unfoldable pub add_counts : ResourceCounts → ResourceCounts → ResourceCounts
add_counts a b = record a { pod = wrap64 (a.pod +ℤ b.pod) }

unfoldable pub sub_counts : ResourceCounts → ResourceCounts → ResourceCounts
sub_counts a b =
    let left = wrap64 (a.pod -ℤ b.pod) in
    if ltb_ℤ left (pos 0) then record a { pod = pos 0 } else record a { pod = left }

-- `ResourceAmount{}`
abbrev pub no_amount : {Q : Type 0} → ResourceAmount Q
no_amount = record { resource_counts = none; resource_requests = [] }

-- the branches of `Add` and `Sub` on the two pointers
unfoldable pub added_counts : Option ResourceCounts → Option ResourceCounts → Option ResourceCounts
unfolding add_counts
added_counts none b = b
added_counts (some a) none = some a
added_counts (some a) (some b) = some (add_counts a b)

unfoldable pub subed_counts : Option ResourceCounts → Option ResourceCounts → Option ResourceCounts
unfolding sub_counts
subed_counts (some a) (some b) = some (sub_counts a b)
subed_counts (some a) none = some a
subed_counts none b = none

-- `isThrottledCountsFunc`
unfoldable pub is_throttled_counts : Bool → ℤ → ℤ → Bool
is_throttled_counts is_throttled_on_equal used threshold =
    if is_throttled_on_equal then leb_ℤ threshold used else ltb_ℤ threshold used

unfoldable pub pod_count_throttled : Bool → Option ResourceCounts → Option ResourceCounts → Bool
unfolding is_throttled_counts
pod_count_throttled on_equal (some threshold) (some used) =
    is_throttled_counts on_equal used.pod threshold.pod
pod_count_throttled on_equal (some threshold) none = false
pod_count_throttled on_equal none used = false

module _ {Q : Type 0} ⦃q : Quantity Q⦄ where
  unfoldable pub resource_amount_of_pod : Pod Q → ResourceAmount Q
  resource_amount_of_pod pod = record {
    resource_counts = some (record { pod = pos 1 });
    resource_requests = ResourceList.pod_request_resource_list pod;
  }

  unfoldable pub add : ResourceAmount Q → ResourceAmount Q → ResourceAmount Q
  unfolding added_counts
  add a b = record {
    resource_counts = added_counts a.resource_counts b.resource_counts;
    resource_requests = ResourceList.add a.resource_requests b.resource_requests;
  }

  unfoldable pub sub : ResourceAmount Q → ResourceAmount Q → ResourceAmount Q
  unfolding subed_counts
  sub a b = record {
    resource_counts = subed_counts a.resource_counts b.resource_counts;
    resource_requests = ResourceList.sub a.resource_requests b.resource_requests;
  }

  -- the loop of `IsThrottledFor`: the first requested resource whose flag is set
  unfoldable pub any_throttled : GoMap String Bool → ResourceList Q → Bool
  any_throttled flags [] = false
  any_throttled flags ((rn, rq) ∷ requests) =
      let rest = any_throttled flags requests in
      if q.is_zero rq
      then rest
      else elim (get rn flags) [ none ↦ rest | some throttled ↦ if throttled then true else rest ]

  unfoldable pub is_throttled_for : IsResourceAmountThrottled → Pod Q → Bool
  unfolding any_throttled
  is_throttled_for t pod =
      if t.resource_counts.pod
      then true
      else any_throttled t.resource_requests (resource_amount_of_pod pod).resource_requests

  -- `isThrottledQuantityFunc`
  unfoldable pub is_throttled_quantity : Bool → Q → Q → Bool
  is_throttled_quantity is_throttled_on_equal used threshold =
      if is_throttled_on_equal
      then elim (q.cmp used threshold) [ Ordering.lt ↦ false | _ ↦ true ]
      else elim (q.cmp used threshold) [ Ordering.gt ↦ true | _ ↦ false ]

  -- the flag that the loop of `IsThrottled` sets for a name
  unfoldable pub request_throttled : Bool → Option Q → Q → Bool
  unfolding is_throttled_quantity
  request_throttled on_equal (some qu) qt = is_throttled_quantity on_equal qu qt
  request_throttled on_equal none qt = false

  unfoldable pub is_throttled :
      ResourceAmount Q → ResourceAmount Q → Bool → IsResourceAmountThrottled
  unfolding pod_count_throttled request_throttled
  is_throttled threshold used is_throttled_on_equal = record {
    resource_counts = record {
      pod =
          pod_count_throttled is_throttled_on_equal threshold.resource_counts used.resource_counts;
    };
    resource_requests = for_range threshold.resource_requests [] λ rn qt flags.
        put rn (request_throttled is_throttled_on_equal (get rn used.resource_requests) qt) flags;
  }
