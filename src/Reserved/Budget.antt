-- ===== src/Reserved/Budget.antt =====
-- A budget for one resource on one throttle: what is used and what is reserved, together.
use kube_throttler.Prelude.{
  string_eq, ◌==◌, String, ◌≡◌, sym, ◌∙◌, ap, subst, true, none, List, arith, if◌then◌else◌,
  Option-cases, Bool-cases, inl, inr,
}
use kube_throttler.Prelude.Int.{ℤ, pos, ◌+ℤ◌, ◌≤ℤ◌, int_laws}
use kube_throttler.Prelude.GoMap.{
  get, put, delete, IsMap, AllValues, put-AllValues, delete-AllValues, get-AllValues, delete_absent,
  delete-put_any, put-IsMap, get-put,
}
use kube_throttler.Prelude.Lists.{any}
use kube_throttler.Quantity.{Quantity}
use kube_throttler.Pod.{Pod}
use kube_throttler.NamespacedName.{NamespacedName, nn_eq, nn_of_pod}
use kube_throttler.ResourceList.Entries.{amount_of}
use kube_throttler.ResourceAmount.{ResourceAmount, resource_amount_of_pod}
use kube_throttler.Throttle.Within.{amount_or_zero, join_as_sum}
use kube_throttler.Reserved.{
  PodResourceAmountMap, ReservedResourceAmounts, reserved_resource_amount,
}
use kube_throttler.Reserved.Entries.{pods_of}
use kube_throttler.Reserved.Total.{sum_requests, sum-delete}
use kube_throttler.Reserved.Moves.{IsWellFormed, reserved_sum}
use kube_throttler.Reserved.Many.{
  add_all, remove_all, pods_of-add_all, pods_of-remove_all, add_all-IsWellFormed,
  remove_all-IsWellFormed,
}

budget_left :
    (used rest x limit : ℤ) → pos 0 ≤ℤ x → used +ℤ (rest +ℤ x) ≤ℤ limit → used +ℤ rest ≤ℤ limit
budget_left used rest x limit n h = omega int_laws

from_base : (used r a limit : ℤ) → (used +ℤ a) +ℤ r ≤ℤ limit → used +ℤ (r +ℤ a) ≤ℤ limit
from_base used r a limit h = omega int_laws

-- What is reserved of a name for a pod is not negative.
abbrev pub NonNegativeAt : {Q : Type 0} → ⦃q : Quantity Q⦄ → String → ResourceAmount Q → Type 0
NonNegativeAt name ra = pos 0 ≤ℤ amount_or_zero (amount_of name ra.resource_requests)

-- What is reserved of a name on a throttle.
abbrev pub reserved_at :
    {Q : Type 0} → ⦃q : Quantity Q⦄ → NamespacedName → String → ReservedResourceAmounts Q → ℤ
reserved_at nn name c =
    amount_or_zero (amount_of name (reserved_resource_amount c nn).0.resource_requests)

module _ {Q : Type 0} ⦃q : Quantity Q⦄ (nn : NamespacedName) (name : String) (used limit : ℤ) where
  pub record InBudget (c : ReservedResourceAmounts Q) : Type 0 where
    pub formed : IsWellFormed c
    pub counted : AllValues (NonNegativeAt name) (pods_of nn c)
    pub within : used +ℤ reserved_at nn name c ≤ℤ limit

  reserved_at-sum :
      (c : ReservedResourceAmounts Q)
      → IsWellFormed c
      → reserved_at nn name c ≡ amount_or_zero (sum_requests name none (pods_of nn c))
  reserved_at-sum c w = ap amount_or_zero (reserved_sum c nn name w)

  -- A cache whose map for the throttle is as it was.
  pub InBudget-same :
      (c c' : ReservedResourceAmounts Q)
      → IsWellFormed c'
      → pods_of nn c' ≡ pods_of nn c
      → InBudget c
      → InBudget c'
  InBudget-same c c' w e b = record {
    formed = w;
    counted = subst (AllValues (NonNegativeAt name)) (sym e) b.counted;
    within =
        subst (λ z. used +ℤ z ≤ℤ limit)
          (reserved_at-sum c b.formed
            ∙ ap (λ m. amount_or_zero (sum_requests name none m)) (sym e)
            ∙ sym (reserved_at-sum c' w))
          b.within;
  }

  abbrev total : PodResourceAmountMap Q → ℤ
  total m = amount_or_zero (sum_requests name none m)

  -- Without an entry of a pod there is as much room or more.
  total-delete :
      (k : NamespacedName) (m : PodResourceAmountMap Q) (base : ℤ)
      → IsMap m
      → AllValues (NonNegativeAt name) m
      → base +ℤ total m ≤ℤ limit
      → base +ℤ total (delete k m) ≤ℤ limit
  total-delete k m base d n h = elim (Option-cases (get k m)) [
    | inl absent ↦ subst (λ l. base +ℤ total l ≤ℤ limit) (sym (delete_absent k m absent)) h
    | inr (ra, there) ↦
        budget_left base (total (delete k m)) (amount_or_zero (amount_of name ra.resource_requests))
          limit (get-AllValues (NonNegativeAt name) k m n there)
          (subst (λ z. base +ℤ z ≤ℤ limit)
            (ap amount_or_zero (sum-delete name none k ra m d there)
              ∙ join_as_sum (sum_requests name none (delete k m))
                  (amount_of name ra.resource_requests))
            h)
  ]

  -- The total with an entry put is that without the entry, and its amount.
  total-put :
      (k : NamespacedName) (ra : ResourceAmount Q) (m : PodResourceAmountMap Q)
      → IsMap m
      → total (put k ra m)
        ≡ total (delete k m) +ℤ amount_or_zero (amount_of name ra.resource_requests)
  total-put k ra m d =
      ap amount_or_zero (
        sum-delete name none k ra (put k ra m) (put-IsMap k ra m d)
          (get-put k k ra m ∙ ground (arith, nn_eq.beq_iff k k)))
      ∙ join_as_sum (sum_requests name none (delete k (put k ra m)))
          (amount_of name ra.resource_requests)
      ∙ ap (λ l. total l +ℤ amount_or_zero (amount_of name ra.resource_requests))
          (delete-put_any k ra m)

  -- A cache whose map for the throttle has an entry put, for which there is room.
  pub InBudget-put :
      (c c' : ReservedResourceAmounts Q) (k : NamespacedName) (ra : ResourceAmount Q)
      → IsWellFormed c'
      → pods_of nn c' ≡ put k ra (pods_of nn c)
      → NonNegativeAt name ra
      → (used +ℤ amount_or_zero (amount_of name ra.resource_requests)) +ℤ reserved_at nn name c
        ≤ℤ limit
      → InBudget c
      → InBudget c'
  InBudget-put c c' k ra w e n room b =
      let a : ℤ = amount_or_zero (amount_of name ra.resource_requests) in
      let m : PodResourceAmountMap Q = pods_of nn c in
      record {
        formed = w;
        counted =
            subst (AllValues (NonNegativeAt name)) (sym e)
              (put-AllValues (NonNegativeAt name) k ra m n b.counted);
        within =
            subst (λ z. used +ℤ z ≤ℤ limit)
              (sym (total-put k ra m (b.formed nn).0)
                ∙ ap total (sym e)
                ∙ sym (reserved_at-sum c' w))
              (from_base used (total (delete k m)) a limit (
                total-delete k m (used +ℤ a) (b.formed nn).0 b.counted
                  (subst (λ z. (used +ℤ a) +ℤ z ≤ℤ limit) (reserved_at-sum c b.formed) room)));
      }

  -- A cache whose map for the throttle lacks an entry.
  pub InBudget-delete :
      (c c' : ReservedResourceAmounts Q) (k : NamespacedName)
      → IsWellFormed c'
      → pods_of nn c' ≡ delete k (pods_of nn c)
      → InBudget c
      → InBudget c'
  InBudget-delete c c' k w e b = record {
    formed = w;
    counted =
        subst (AllValues (NonNegativeAt name)) (sym e)
          (delete-AllValues (NonNegativeAt name) k (pods_of nn c) b.counted);
    within =
        subst (λ z. used +ℤ z ≤ℤ limit) (ap total (sym e) ∙ sym (reserved_at-sum c' w))
          (total-delete k (pods_of nn c) used (b.formed nn).0 b.counted
            (subst (λ z. used +ℤ z ≤ℤ limit) (reserved_at-sum c b.formed) b.within));
  }

  module _ {A : Type 0} (name_of : A → NamespacedName) (pod : Pod Q) (xs : List A)
      (c : ReservedResourceAmounts Q) where
    pub InBudget-remove_all : InBudget c → InBudget (remove_all name_of pod xs c)
    InBudget-remove_all b =
        let w = remove_all-IsWellFormed name_of pod xs c b.formed in
        elim (Bool-cases (any (λ x. name_of x == nn) xs)) [
          | inl here ↦
              InBudget-delete c (remove_all name_of pod xs c) (nn_of_pod pod) w
                (pods_of-remove_all name_of pod xs c nn
                  ∙ ap (λ t. if t then delete (nn_of_pod pod) (pods_of nn c) else pods_of nn c)
                      here)
                b
          | inr there ↦
              InBudget-same c (remove_all name_of pod xs c) w
                (pods_of-remove_all name_of pod xs c nn
                  ∙ ap (λ t. if t then delete (nn_of_pod pod) (pods_of nn c) else pods_of nn c)
                      there)
                b
        ]

    -- The throttle is among those that the pod is reserved on only if there is room for it.
    pub InBudget-add_all :
        (any (λ x. name_of x == nn) xs ≡ true
          → (used +ℤ amount_or_zero (amount_of name (resource_amount_of_pod pod).resource_requests))
              +ℤ reserved_at nn name c
            ≤ℤ limit)
        → NonNegativeAt name (resource_amount_of_pod pod)
        → InBudget c
        → InBudget (add_all name_of pod xs c)
    InBudget-add_all room n b =
        let w = add_all-IsWellFormed name_of pod xs c b.formed in
        let ra : ResourceAmount Q = resource_amount_of_pod pod in
        elim (Bool-cases (any (λ x. name_of x == nn) xs)) [
          | inl here ↦
              InBudget-put c (add_all name_of pod xs c) (nn_of_pod pod) ra w
                (pods_of-add_all name_of pod xs c nn
                  ∙ ap (λ t. if t then put (nn_of_pod pod) ra (pods_of nn c) else pods_of nn c)
                      here)
                n (room here) b
          | inr there ↦
              InBudget-same c (add_all name_of pod xs c) w
                (pods_of-add_all name_of pod xs c nn
                  ∙ ap (λ t. if t then put (nn_of_pod pod) ra (pods_of nn c) else pods_of nn c)
                      there)
                b
        ]
