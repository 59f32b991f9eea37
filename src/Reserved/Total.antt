-- ===== src/Reserved/Total.antt =====
-- The total that is reserved on a throttle, and the sum over its pods.
use kube_throttler.Prelude.{
  string_eq, ◌==◌, ℕ, zero, suc, ◌+◌, ◌<◌, ◌^◌, String, ◌≡◌, refl, sym, ◌∙◌, ap, Option, none, some,
  [], ◌∷◌, arith, if◌then◌else◌, Bool-cases, inl, inr, eq_of_beq, subst,
}
use mathlib.Core.Path.{ap₂}
use kube_throttler.Prelude.Int.{ℤ, pos, ◌+ℤ◌, +ℤ_comm, +ℤ_assoc, wrap64_lem, IsInt64}
use kube_throttler.Prelude.GoMap.{
  get, put, delete, for_range, IsMap, AllValues, put-AllValues, delete-AllValues, put-IsMap,
  delete-IsMap, delete_absent,
}
use kube_throttler.Prelude.Lists.{length}
use kube_throttler.Quantity.{Quantity}
use kube_throttler.Pod.{Pod}
use kube_throttler.NamespacedName.{NamespacedName, nn_eq}
use kube_throttler.ResourceList.Entries.{amount_of, join}
use kube_throttler.ResourceAmount.{
  ResourceAmount, ResourceCounts, no_amount, added_counts, add_counts, resource_amount_of_pod,
}
use kube_throttler.ResourceAmount
use kube_throttler.ResourceAmount.Throttled.{count_of}
use kube_throttler.ResourceAmount.Amounts.{
  add64, count-add, request-add, request_of_pod-IsMap, request_add-IsMap,
}
use kube_throttler.Reserved.{PodResourceAmountMap, NameSet, total_resource_amount}

join_assoc : (a b c : Option ℤ) → join ◌+ℤ◌ (join ◌+ℤ◌ a b) c ≡ join ◌+ℤ◌ a (join ◌+ℤ◌ b c)
join_assoc none b c = refl
join_assoc (some a) none c = refl
join_assoc (some a) (some b) none = refl
join_assoc (some a) (some b) (some c) = ap some (+ℤ_assoc a b c)

join_comm : (a b : Option ℤ) → join ◌+ℤ◌ a b ≡ join ◌+ℤ◌ b a
join_comm none none = refl
join_comm none (some b) = refl
join_comm (some a) none = refl
join_comm (some a) (some b) = ap some (+ℤ_comm a b)

join_swap : (a b c : Option ℤ) → join ◌+ℤ◌ (join ◌+ℤ◌ a b) c ≡ join ◌+ℤ◌ (join ◌+ℤ◌ a c) b
join_swap a b c = join_assoc a b c ∙ ap (join ◌+ℤ◌ a) (join_comm b c) ∙ sym (join_assoc a c b)

-- The number of pods, as the total counts it.
abbrev pub number : ℕ → Option ℤ
number zero = none
number (suc n) = some (pos (suc n))

pub number_step : (k : ℕ) → suc k < 2 ^ 63 → join add64 (number k) (some (pos 1)) ≡ number (suc k)
number_step zero lt = refl
number_step (suc k) lt = ap some (wrap64_lem (pos (suc k) +ℤ pos 1) fits ∙ sum)
  where
    sum : pos (suc k) +ℤ pos 1 ≡ pos (suc (suc k))
    sum = unfold ◌+ℤ◌ in ground arith

    fits : IsInt64 (pos (suc k) +ℤ pos 1)
    fits = subst IsInt64 (sym sum) (omega arith)

module _ {Q : Type 0} ⦃q : Quantity Q⦄ where
  -- What an entry of the cache is: the amount of one pod.
  abbrev pub IsPodAmount : ResourceAmount Q → Type 0
  IsPodAmount ra = IsMap ra.resource_requests × (ra.resource_counts ≡ some (record { pod = pos 1 }))

  abbrev pub IsTidy : PodResourceAmountMap Q → Type 0
  IsTidy m = IsMap m × AllValues IsPodAmount m

  -- The sum of what the pods of a map reserve of a name, on top of `o`.
  abbrev pub sum_requests : String → Option ℤ → PodResourceAmountMap Q → Option ℤ
  sum_requests name o [] = o
  sum_requests name o ((nn, ra) ∷ m) =
      sum_requests name (join ◌+ℤ◌ o (amount_of name ra.resource_requests)) m

  abbrev add_entry :
      NamespacedName → ResourceAmount Q → ResourceAmount Q × NameSet → ResourceAmount Q × NameSet
  add_entry nn ra s = (ResourceAmount.add s.0 ra, put nn tt s.1)

  total_loop :
      (m : PodResourceAmountMap Q) (s : ResourceAmount Q × NameSet) (name : String)
      → AllValues IsPodAmount m
      → amount_of name (for_range m s add_entry).0.resource_requests
        ≡ sum_requests name (amount_of name s.0.resource_requests) m
  unfolding for_range
  total_loop [] s name h = refl
  total_loop ((nn, ra) ∷ m) s name h =
      total_loop m (add_entry nn ra s) name h.1
      ∙ ap (λ o. sum_requests name o m) (request-add s.0 ra name h.0.0)

  -- Of every name, the total is the sum over the pods.
  pub request-total :
      (m : PodResourceAmountMap Q) (name : String)
      → IsTidy m
      → amount_of name (total_resource_amount m).0.resource_requests ≡ sum_requests name none m
  unfolding total_resource_amount get
  request-total m name h = total_loop m (no_amount, []) name h.1

  pub sum_shift :
      (name : String) (o x : Option ℤ) (m : PodResourceAmountMap Q)
      → sum_requests name (join ◌+ℤ◌ o x) m ≡ join ◌+ℤ◌ (sum_requests name o m) x
  sum_shift name o x [] = refl
  sum_shift name o x ((nn, ra) ∷ m) =
      ap (λ a. sum_requests name a m) (join_swap o x (amount_of name ra.resource_requests))
      ∙ sum_shift name (join ◌+ℤ◌ o (amount_of name ra.resource_requests)) x m

  -- The entry of a key counts once, wherever it stands.
  pub sum-delete :
      (name : String) (o : Option ℤ) (k : NamespacedName) (ra : ResourceAmount Q)
      (m : PodResourceAmountMap Q)
      → IsMap m
      → get k m ≡ some ra
      → sum_requests name o m
        ≡ join ◌+ℤ◌ (sum_requests name o (delete k m)) (amount_of name ra.resource_requests)
  unfolding get delete
  sum-delete name o k ra [] d e = absurd (cc)
  sum-delete name o k ra ((nn, x) ∷ m) d e = elim (Bool-cases (nn == k)) [
    | inl same ↦
        let absent : get k m ≡ none = subst (λ j. get j m ≡ none) (eq_of_beq nn k same) d.0 in
        let it : x ≡ ra = ground arith in
        rw (same, if◌then◌else◌)
          (sum_shift name o (amount_of name x.resource_requests) m
            ∙ ap₂
                (λ l (y : ResourceAmount Q).
                  join ◌+ℤ◌ (sum_requests name o l) (amount_of name y.resource_requests))
                (sym (delete_absent k m absent)) it)
    | inr other ↦
        rw (other, if◌then◌else◌)
          (sum-delete name (join ◌+ℤ◌ o (amount_of name x.resource_requests)) k ra m d.1
            (ground arith))
  ]

  pub sum-put :
      (name : String) (o : Option ℤ) (k : NamespacedName) (ra : ResourceAmount Q)
      (m : PodResourceAmountMap Q)
      → get k m ≡ none
      → sum_requests name o (put k ra m)
        ≡ join ◌+ℤ◌ (sum_requests name o m) (amount_of name ra.resource_requests)
  unfolding get put
  sum-put name o k ra [] e = refl
  sum-put name o k ra ((nn, x) ∷ m) e = elim (Bool-cases (nn == k)) [
    | inl same ↦ absurd (ground arith)
    | inr other ↦
        rw (other, put)
          (sum-put name (join ◌+ℤ◌ o (amount_of name x.resource_requests)) k ra m (ground arith))
  ]

  count_loop :
      (m : PodResourceAmountMap Q) (s : ResourceAmount Q × NameSet) (k : ℕ)
      → AllValues IsPodAmount m
      → length m + k < 2 ^ 63
      → count_of s.0.resource_counts ≡ number k
      → count_of (for_range m s add_entry).0.resource_counts ≡ number (length m + k)
  unfolding for_range
  count_loop [] s k h lt e = e ∙ ap number (omega arith)
  count_loop ((nn, ra) ∷ m) s k h lt e =
      count_loop m (add_entry nn ra s) (suc k) h.1 (omega arith)
        (count-add s.0 ra ∙ ap₂ (join add64) e (ap count_of h.0.1) ∙ number_step k (omega arith))
      ∙ ap number (omega arith)

  -- The total counts the pods of a map of pods, if a 64-bit integer can hold their number.
  pub count-total :
      (m : PodResourceAmountMap Q)
      → IsTidy m
      → length m < 2 ^ 63
      → count_of (total_resource_amount m).0.resource_counts ≡ number (length m)
  unfolding total_resource_amount
  count-total m h lt =
      count_loop m (no_amount, []) 0 h.1 (omega arith) refl ∙ ap number (omega arith)

  pub pod_amount : (pod : Pod Q) → IsPodAmount (resource_amount_of_pod pod)
  pod_amount pod = (request_of_pod-IsMap pod, unfold resource_amount_of_pod in refl)

  pub put-IsTidy :
      (k : NamespacedName) (pod : Pod Q) (m : PodResourceAmountMap Q)
      → IsTidy m
      → IsTidy (put k (resource_amount_of_pod pod) m)
  put-IsTidy k pod m h = (put-IsMap k _ m h.0, put-AllValues IsPodAmount k _ m (pod_amount pod) h.1)

  pub delete-IsTidy :
      (k : NamespacedName) (m : PodResourceAmountMap Q) → IsTidy m → IsTidy (delete k m)
  delete-IsTidy k m h = (delete-IsMap k m h.0, delete-AllValues IsPodAmount k m h.1)

  total_loop-IsMap :
      (m : PodResourceAmountMap Q) (s : ResourceAmount Q × NameSet)
      → IsMap s.0.resource_requests
      → IsMap (for_range m s add_entry).0.resource_requests
  unfolding for_range
  total_loop-IsMap [] s h = h
  total_loop-IsMap ((nn, ra) ∷ m) s h =
      total_loop-IsMap m (add_entry nn ra s) (request_add-IsMap s.0 ra h)

  pub total-IsMap :
      (m : PodResourceAmountMap Q) → IsMap (total_resource_amount m).0.resource_requests
  unfolding total_resource_amount
  total-IsMap m = total_loop-IsMap m (no_amount, []) tt
