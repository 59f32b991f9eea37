-- ===== src/ResourceAmount/Amounts.antt =====
-- The sum of two amounts, name by name, and its pod count.
use kube_throttler.Prelude.{string_eq, String, ◌≡◌, arith}
use kube_throttler.Prelude.Int.{ℤ, ◌+ℤ◌, wrap64}
use kube_throttler.Prelude.GoMap.{IsMap}
use kube_throttler.Quantity.{Quantity}
use kube_throttler.Pod.{Pod}
use kube_throttler.ResourceList.Entries.{amount_of, join, get-add, add-IsMap}
use kube_throttler.ResourceList.PodRequest.{pod_request-IsMap}
use kube_throttler.ResourceAmount.{
  ResourceAmount, added_counts, add_counts, add, resource_amount_of_pod,
}
use kube_throttler.ResourceAmount.Throttled.{count_of}

-- The sum of two machine integers.
abbrev pub add64 : ℤ → ℤ → ℤ
add64 a b = wrap64 (a +ℤ b)

module _ {Q : Type 0} ⦃q : Quantity Q⦄ where
  pub count-add :
      (a b : ResourceAmount Q)
      → count_of (add a b).resource_counts
        ≡ join add64 (count_of a.resource_counts) (count_of b.resource_counts)
  unfolding add added_counts add_counts
  count-add a b = ground arith

  pub request-add :
      (a b : ResourceAmount Q) (name : String)
      → IsMap b.resource_requests
      → amount_of name (add a b).resource_requests
        ≡ join ◌+ℤ◌ (amount_of name a.resource_requests) (amount_of name b.resource_requests)
  unfolding add
  request-add a b name d = get-add a.resource_requests b.resource_requests name d

  pub request_add-IsMap :
      (a b : ResourceAmount Q) → IsMap a.resource_requests → IsMap (add a b).resource_requests
  unfolding add
  request_add-IsMap a b h = add-IsMap a.resource_requests b.resource_requests h

  pub request_of_pod-IsMap : (pod : Pod Q) → IsMap (resource_amount_of_pod pod).resource_requests
  unfolding resource_amount_of_pod
  request_of_pod-IsMap pod = pod_request-IsMap pod
