-- ===== src/ResourceList.antt =====
-- pkg/resourcelist/resourcelist.go. Maps are values here: a method that writes to its receiver
-- returns the new map. No call of the program writes to a map that another object shares.
pub mod Entries
pub mod Compare
pub mod PodRequest
use kube_throttler.Prelude.{
  string_eq, String, Bool, true, false, ◌&&◌, Option, none, some, List, [], ◌∷◌, Ordering, get_or,
  if◌then◌else◌,
}
use kube_throttler.Prelude.GoMap.{get, put, delete, has, for_range}
use kube_throttler.Prelude.Lists.{for_each}
use kube_throttler.Quantity.{Quantity}
use kube_throttler.Pod.{Pod, ResourceList}

module _ {Q : Type 0} ⦃q : Quantity Q⦄ where
  unfoldable pub quantity_max : Q → Q → Q
  quantity_max qx qy = elim (q.cmp qx qy) [ Ordering.gt ↦ qx | Ordering.lt ↦ qy | Ordering.eq ↦ qx ]

  unfoldable pub quantity_min : Q → Q → Q
  quantity_min qx qy = elim (q.cmp qx qy) [ Ordering.lt ↦ qx | Ordering.gt ↦ qy | Ordering.eq ↦ qx ]

  -- `m[name]`, where a missing name reads as the zero quantity
  abbrev pub read : String → ResourceList Q → Q
  read name m = get_or q.zero_quantity (get name m)

  unfoldable pub add : ResourceList Q → ResourceList Q → ResourceList Q
  add lhs rhs = for_range rhs lhs (λ name qrhs m. put name (q.add (read name m) qrhs) m)

  unfoldable pub sub : ResourceList Q → ResourceList Q → ResourceList Q
  sub lhs rhs = for_range rhs lhs (λ name qrhs m. put name (q.sub (read name m) qrhs) m)

  unfoldable pub greater_or_equal : ResourceList Q → ResourceList Q → Bool
  greater_or_equal lhs [] = true
  greater_or_equal lhs ((name, qrhs) ∷ rhs) = elim (get name lhs) [
    | none ↦ false
    | some qlhs ↦ elim (q.cmp qlhs qrhs) [
      | Ordering.lt ↦ false
      | Ordering.eq ↦ greater_or_equal lhs rhs
      | Ordering.gt ↦ greater_or_equal lhs rhs
    ]
  ]

  -- a round of the loop of `SetMax`
  abbrev pub set_max_entry : ResourceList Q → String → Q → ResourceList Q → ResourceList Q
  set_max_entry rhs r_name r_quant lhs =
      if has r_name lhs
      then put r_name (quantity_max (read r_name lhs) r_quant) lhs
      else put r_name (read r_name rhs) lhs

  unfoldable pub set_max : ResourceList Q → ResourceList Q → ResourceList Q
  unfolding quantity_max
  set_max lhs rhs = for_range rhs lhs (set_max_entry rhs)

  -- a round of the first loop of `SetMin`
  abbrev pub set_min_entry : String → Q → ResourceList Q → ResourceList Q
  set_min_entry r_name r_quant lhs =
      if has r_name lhs then put r_name (quantity_min (read r_name lhs) r_quant) lhs else lhs

  -- a round of the second
  abbrev pub drop_entry : ResourceList Q → String → Q → ResourceList Q → ResourceList Q
  drop_entry rhs l_name l_quant lhs = if has l_name rhs then lhs else delete l_name lhs

  unfoldable pub set_min : ResourceList Q → ResourceList Q → ResourceList Q
  unfolding quantity_min
  set_min lhs rhs =
      let smaller = for_range rhs lhs set_min_entry in for_range smaller smaller (drop_entry rhs)

  -- the closure of `EqualTo`
  unfoldable pub covered_by : ResourceList Q → ResourceList Q → Bool
  covered_by [] r2 = true
  covered_by ((n, quantity) ∷ r1) r2 = elim (q.cmp quantity (read n r2)) [
    | Ordering.eq ↦ covered_by r1 r2
    | Ordering.lt ↦ false
    | Ordering.gt ↦ false
  ]

  unfoldable pub equal_to : ResourceList Q → ResourceList Q → Bool
  unfolding covered_by
  equal_to lhs rhs = covered_by lhs rhs && covered_by rhs lhs

  unfoldable pub pod_request_resource_list : Pod Q → ResourceList Q
  unfolding add set_max
  pod_request_resource_list pod =
      let ic_res =
        for_each {S = ResourceList Q} pod.init_containers [] (λ c m. set_max m c.requests) in
      let c_res = for_each {S = ResourceList Q} pod.containers [] (λ c m. add m c.requests) in
      let most = set_max c_res ic_res in
      elim pod.overhead [ none ↦ most | some overhead ↦ add most overhead ]
