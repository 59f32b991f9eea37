-- ===== src/Reserved.antt =====
-- pkg/controllers/reserved_resource_amounts.go: what is reserved, per throttle, for pods that the
-- scheduler has let through and whose use no status counts yet. Each method holds the lock of its
-- throttle's key from its first to its last access, so it is one step on the cache; the locks
-- themselves are not modelled. A pod map is shared by reference in the source: a method that
-- changes it stores it back here.
pub mod Entries
pub mod Total
pub mod Moves
pub mod Many
pub mod Budget
pub mod Ledger
use kube_throttler.Prelude.{ℕ, Bool, not, Option, none, some, List, [], ◌∷◌, is_some}
use kube_throttler.Prelude.GoMap.{GoMap, get, put, delete, for_range}
use kube_throttler.Quantity.{Quantity}
use kube_throttler.Pod.{Pod}
use kube_throttler.NamespacedName.{NamespacedName, nn_eq, nn_of_pod}
use kube_throttler.ResourceAmount
use kube_throttler.ResourceAmount.{ResourceAmount, no_amount, resource_amount_of_pod}

abbrev pub PodResourceAmountMap : Type 0 → Type 0
PodResourceAmountMap Q = GoMap NamespacedName (ResourceAmount Q)

-- a `sets.Set` of names
abbrev pub NameSet : Type 0
NameSet = GoMap NamespacedName Unit

pub record ReservedResourceAmounts (Q : Type 0) : Type 0 where
  pub cache : GoMap NamespacedName (PodResourceAmountMap Q)

abbrev pub new_reserved_resource_amounts : {Q : Type 0} → ReservedResourceAmounts Q
new_reserved_resource_amounts = record { cache = [] }

module _ {Q : Type 0} ⦃q : Quantity Q⦄ where
  -- methods of `podResourceAmountMap`
  unfoldable pub add : PodResourceAmountMap Q → Pod Q → PodResourceAmountMap Q × Bool
  add c pod =
      let existed = is_some (get (nn_of_pod pod) c) in
      (put (nn_of_pod pod) (resource_amount_of_pod pod) c, not existed)

  unfoldable pub remove_by_nn :
      PodResourceAmountMap Q → NamespacedName → PodResourceAmountMap Q × Bool
  remove_by_nn c nn = let ok = is_some (get nn c) in (delete nn c, ok)

  unfoldable pub remove : PodResourceAmountMap Q → Pod Q → PodResourceAmountMap Q × Bool
  unfolding remove_by_nn
  remove c pod = remove_by_nn c (nn_of_pod pod)

  unfoldable pub total_resource_amount : PodResourceAmountMap Q → ResourceAmount Q × NameSet
  total_resource_amount c =
      for_range {S = ResourceAmount Q × NameSet} c (no_amount, [])
        λ nn ra s. (ResourceAmount.add s.0 ra, put nn tt s.1)

  -- the map of a throttle, made where there is none
  unfoldable pub get_pod_resource_amount_map :
      ReservedResourceAmounts Q
      → NamespacedName
      → PodResourceAmountMap Q × ReservedResourceAmounts Q
  get_pod_resource_amount_map c nn = elim (get nn c.cache) [
    | some m ↦ (m, c)
    | none ↦ ([], record c { cache = put nn [] c.cache })
  ]

  -- writes to the map of a throttle
  abbrev pub store_back :
      ReservedResourceAmounts Q
      → NamespacedName
      → PodResourceAmountMap Q
      → ReservedResourceAmounts Q
  store_back c nn m = record c { cache = put nn m c.cache }

  unfoldable pub add_pod :
      ReservedResourceAmounts Q → NamespacedName → Pod Q → ReservedResourceAmounts Q × Bool
  unfolding get_pod_resource_amount_map add
  add_pod c nn pod =
      let (m, c') = get_pod_resource_amount_map c nn in
      let (m', added) = add m pod in (store_back c' nn m', added)

  unfoldable pub remove_pod :
      ReservedResourceAmounts Q → NamespacedName → Pod Q → ReservedResourceAmounts Q × Bool
  unfolding get_pod_resource_amount_map remove
  remove_pod c nn pod =
      let (m, c') = get_pod_resource_amount_map c nn in
      let (m', removed) = remove m pod in (store_back c' nn m', removed)

  unfoldable pub move_throttle_assignment_for_pods :
      ReservedResourceAmounts Q → Pod Q → NameSet → NameSet → ReservedResourceAmounts Q
  unfolding add_pod remove_pod
  move_throttle_assignment_for_pods c pod from_thrs to_thrs =
      let removed = for_range from_thrs c (λ nn _ s. (remove_pod s nn pod).0) in
      for_range to_thrs removed (λ nn _ s. (add_pod s nn pod).0)

  unfoldable pub reserved_resource_amount :
      ReservedResourceAmounts Q → NamespacedName → ResourceAmount Q × NameSet
  unfolding total_resource_amount
  reserved_resource_amount c nn = elim (get nn c.cache) [
    | none ↦ (no_amount, [])
    | some m ↦ total_resource_amount m
  ]
