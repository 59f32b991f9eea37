-- ===== src/Reserved/Ledger.antt =====
-- What a pod reserves on a throttle by the cache of reserved_resource_amounts.go, one entry at a time.
pub mod Same
pub mod Refinement
use kube_throttler.Prelude.{
  string_eq, ◌==◌, ◌≡◌, refl, sym, ◌∙◌, ap, subst, Bool, true, false, ◌&&◌, ◌||◌, Option, none,
  some, List, [], ◌∷◌, arith, if◌then◌else◌, Bool-cases, inl, inr,
}
use kube_throttler.Prelude.Lists.{for_each, All, any}
use kube_throttler.Prelude.GoMap.{get, put, delete, get-put, get-delete}
use kube_throttler.Quantity.{Quantity}
use kube_throttler.Pod.{Pod}
use kube_throttler.NamespacedName.{NamespacedName, nn_eq, nn_of_pod}
use kube_throttler.ResourceAmount.{ResourceAmount, resource_amount_of_pod}
use kube_throttler.Reserved.{PodResourceAmountMap, ReservedResourceAmounts, add_pod, remove_pod}
use kube_throttler.Reserved.Entries.{pods_of, pods_of-add_pod, pods_of-remove_pod}

-- the entry of a pod on a throttle
abbrev pub entry :
    {Q : Type 0}
    → NamespacedName
    → NamespacedName
    → ReservedResourceAmounts Q
    → Option (ResourceAmount Q)
entry pod_nn nn c = get pod_nn (pods_of nn c)

abbrev pub entry_if :
    {Q : Type 0}
    → Bool
    → Option (ResourceAmount Q)
    → Option (ResourceAmount Q)
    → Option (ResourceAmount Q)
entry_if b e e' = if b then e else e'

-- A cache in which a throttle's map is replaced.
entry-replaced :
    {Q : Type 0} (c c' : ReservedResourceAmounts Q) (thr pod_nn nn : NamespacedName)
    (f : PodResourceAmountMap Q → PodResourceAmountMap Q) (b : Bool) (v : Option (ResourceAmount Q))
    → pods_of nn c' ≡ (if thr == nn then f (pods_of thr c) else pods_of nn c)
    → ((m : PodResourceAmountMap Q) → get pod_nn (f m) ≡ (if b then v else get pod_nn m))
    → entry pod_nn nn c' ≡ (if (thr == nn) && b then v else entry pod_nn nn c)
entry-replaced c c' thr pod_nn nn f b v h g = elim (Bool-cases (thr == nn)) [
  | inl here ↦
      ap (get pod_nn) (
        h
        ∙ ap (λ t. if t then f (pods_of thr c) else pods_of nn c) here
        ∙ ap (λ t. f (pods_of t c)) ((nn_eq.beq_iff thr nn).0 here))
      ∙ g (pods_of nn c)
      ∙ ap (λ t. entry_if (t && b) v (entry pod_nn nn c)) (sym here)
  | inr there ↦
      ap (get pod_nn) (h ∙ ap (λ t. if t then f (pods_of thr c) else pods_of nn c) there)
      ∙ ap (λ t. entry_if (t && b) v (entry pod_nn nn c)) (sym there)
]

module _ {Q : Type 0} ⦃q : Quantity Q⦄ (c : ReservedResourceAmounts Q) (thr : NamespacedName)
    (pod : Pod Q) (pod_nn nn : NamespacedName) where
  pub entry-add_pod : entry pod_nn nn (add_pod c thr pod).0 ≡ (
      if (thr == nn) && (nn_of_pod pod == pod_nn)
      then some (resource_amount_of_pod pod)
      else entry pod_nn nn c)
  entry-add_pod =
      entry-replaced c (add_pod c thr pod).0 thr pod_nn nn
        (put (nn_of_pod pod) (resource_amount_of_pod pod)) (nn_of_pod pod == pod_nn)
        (some (resource_amount_of_pod pod)) (pods_of-add_pod c thr pod nn)
        (get-put (nn_of_pod pod) pod_nn (resource_amount_of_pod pod))

  pub entry-remove_pod :
      entry pod_nn nn (remove_pod c thr pod).0
      ≡ (if (thr == nn) && (nn_of_pod pod == pod_nn) then none else entry pod_nn nn c)
  entry-remove_pod =
      entry-replaced c (remove_pod c thr pod).0 thr pod_nn nn (delete (nn_of_pod pod))
        (nn_of_pod pod == pod_nn) none (pods_of-remove_pod c thr pod nn)
        (get-delete (nn_of_pod pod) pod_nn)

-- A loop each of whose rounds sets the entry where its element has the name.
pub entry-for_each :
    {A Q : Type 0} (body : A → ReservedResourceAmounts Q → ReservedResourceAmounts Q)
    (test : A → Bool) (v : Option (ResourceAmount Q)) (pod_nn nn : NamespacedName)
    → ((x : A) (c : ReservedResourceAmounts Q)
        → entry pod_nn nn (body x c) ≡ (if test x then v else entry pod_nn nn c))
    → (xs : List A) (c : ReservedResourceAmounts Q)
    → entry pod_nn nn (for_each xs c body) ≡ (if any test xs then v else entry pod_nn nn c)
unfolding for_each
entry-for_each body test v pod_nn nn h [] c = refl
entry-for_each body test v pod_nn nn h (x ∷ xs) c =
    entry-for_each body test v pod_nn nn h xs (body x c) ∙ ground (arith, h x c)

pub entry-free :
    {A Q : Type 0} (name_of : A → NamespacedName) (c : ReservedResourceAmounts Q)
    (this pod_nn nn : NamespacedName) (xs : List A)
    → All (λ x. entry this (name_of x) c ≡ none) xs
    → any (λ x. (name_of x == nn) && (this == pod_nn)) xs ≡ true
    → entry pod_nn nn c ≡ none
entry-free name_of c this pod_nn nn [] free h = absurd (cc)
entry-free name_of c this pod_nn nn (x ∷ xs) free h =
    elim (Bool-cases ((name_of x == nn) && (this == pod_nn))) [
      | inl here ↦
          subst (λ k. entry k nn c ≡ none) ((nn_eq.beq_iff this pod_nn).0 (ground arith))
            (subst (λ k. entry this k c ≡ none) ((nn_eq.beq_iff (name_of x) nn).0 (ground arith))
              free.0)
      | inr there ↦
          entry-free name_of c this pod_nn nn xs free.1
            (ap (λ b. b || any (λ y. (name_of y == nn) && (this == pod_nn)) xs) (sym there) ∙ h)
    ]
