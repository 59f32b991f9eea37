-- ===== src/Reserved/Ledger/Same.antt =====
-- Two pod maps of reserved_resource_amounts.go with the same entries, in whatever order.
use kube_throttler.Prelude.{
  string_eq, ◌==◌, suc, String, ◌≡◌, refl, sym, ◌∙◌, ap, subst, Option, none, some, [], ◌∷◌, arith,
  Bool-cases, inl, inr, eq_of_beq, eq_self,
}
use kube_throttler.Prelude.Int.{ℤ, ◌+ℤ◌}
use kube_throttler.Prelude.GoMap.{
  GoMap, get, delete, IsMap, get-delete, delete-IsMap, delete_absent,
}
use kube_throttler.Prelude.Lists.{length}
use kube_throttler.Quantity.{Quantity}
use kube_throttler.NamespacedName.{NamespacedName, nn_eq}
use kube_throttler.ResourceList.Entries.{amount_of, join}
use kube_throttler.Reserved.{PodResourceAmountMap}
use kube_throttler.Reserved.Total.{sum_requests, sum_shift, sum-delete}

-- The rest of a map, where the other lacks the first entry.
same_rest :
    {V : Type 0} (k : NamespacedName) (v : V) (m m' : GoMap NamespacedName V)
    → get k m ≡ none
    → ((j : NamespacedName) → get j ((k, v) ∷ m) ≡ get j m')
    → (j : NamespacedName) → get j m ≡ get j (delete k m')
unfolding get
same_rest k v m m' d h j = elim (Bool-cases (k == j)) [
  | inl same ↦
      subst (λ i. get i m ≡ none) (eq_of_beq k j same) d ∙ sym (get-delete k j m' ∙ rw (same) refl)
  | inr other ↦ sym (get-delete k j m' ∙ rw (other) refl ∙ sym (h j) ∙ rw (other) refl)
]

length-delete :
    {V : Type 0} (k : NamespacedName) (m : GoMap NamespacedName V) {v : V}
    → IsMap m
    → get k m ≡ some v
    → length m ≡ suc (length (delete k m))
unfolding get delete
length-delete k [] d e = absurd (cc)
length-delete k ((i, w) ∷ m) {v} d e = elim (Bool-cases (i == k)) [
  | inl same ↦ rw (same) (
      ap (λ l. suc (length l))
        (sym (delete_absent k m (subst (λ j. get j m ≡ none) (eq_of_beq i k same) d.0))))
  | inr other ↦ rw (other) (ap suc (length-delete k m {v = v} d.1 (ground arith)))
]

pub same-length :
    {V : Type 0} (m m' : GoMap NamespacedName V)
    → IsMap m
    → IsMap m'
    → ((j : NamespacedName) → get j m ≡ get j m')
    → length m ≡ length m'
unfolding get
same-length [] [] d d' h = refl
same-length [] ((k, v) ∷ m') d d' h = absurd (ground (arith, h k, eq_self k))
same-length ((k, v) ∷ m) m' d d' h =
    let there : get k m' ≡ some v = sym (h k) ∙ rw (eq_self k) refl in
    ap suc (same-length m (delete k m') d.1 (delete-IsMap k m' d') (same_rest k v m m' d.0 h))
    ∙ sym (length-delete k m' d' there)

pub same-sum :
    {Q : Type 0} ⦃q : Quantity Q⦄ (name : String) (o : Option ℤ) (m m' : PodResourceAmountMap Q)
    → IsMap m
    → IsMap m'
    → ((j : NamespacedName) → get j m ≡ get j m')
    → sum_requests name o m ≡ sum_requests name o m'
unfolding get
same-sum name o [] [] d d' h = refl
same-sum name o [] ((k, v) ∷ m') d d' h = absurd (ground (arith, h k, eq_self k))
same-sum name o ((k, v) ∷ m) m' d d' h =
    let there : get k m' ≡ some v = sym (h k) ∙ rw (eq_self k) refl in
    sum_shift name o (amount_of name v.resource_requests) m
    ∙ ap (λ s. join ◌+ℤ◌ s (amount_of name v.resource_requests))
        (same-sum name o m (delete k m') d.1 (delete-IsMap k m' d') (same_rest k v m m' d.0 h))
    ∙ sym (sum-delete name o k v m' d' there)
