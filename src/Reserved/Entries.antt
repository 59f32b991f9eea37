-- ===== src/Reserved/Entries.antt =====
-- Who is reserved where after each method of the cache.
use kube_throttler.Prelude.{
  string_eq, ◌==◌, ◌≡◌, refl, sym, ◌∙◌, ap, subst, not, none, some, [], arith, get_or, is_some,
  if◌then◌else◌, Option-cases, Bool-cases, inl, inr,
}
use mathlib.Core.Path.{ap₂}
use kube_throttler.Prelude.GoMap.{for_range, get, put, delete, get-put}
use kube_throttler.Quantity.{Quantity}
use kube_throttler.Pod.{Pod}
use kube_throttler.NamespacedName.{NamespacedName, nn_eq, nn_of_pod}
use kube_throttler.ResourceAmount.{resource_amount_of_pod}
use kube_throttler.Reserved.{
  PodResourceAmountMap, ReservedResourceAmounts, add, remove, get_pod_resource_amount_map, add_pod,
  remove_pod, reserved_resource_amount, total_resource_amount,
}

-- The pods that are reserved on a throttle, none where the cache has no entry.
abbrev pub pods_of :
    {Q : Type 0} → NamespacedName → ReservedResourceAmounts Q → PodResourceAmountMap Q
pods_of nn c = get_or [] (get nn c.cache)

pods_of-store_back :
    {Q : Type 0} (c : ReservedResourceAmounts Q) (nn : NamespacedName) (m : PodResourceAmountMap Q)
    (nn' : NamespacedName)
    → get_or [] (get nn' (put nn m c.cache)) ≡ (if nn == nn' then m else pods_of nn' c)
pods_of-store_back c nn m nn' = ap (get_or []) (get-put nn nn' m c.cache) ∙ ground arith

module _ {Q : Type 0} ⦃q : Quantity Q⦄ (c : ReservedResourceAmounts Q) (nn : NamespacedName) where
  get_map-pods_of : (get_pod_resource_amount_map c nn).0 ≡ pods_of nn c
  unfolding get_pod_resource_amount_map
  get_map-pods_of = ground arith

  pods_of-put_empty :
      (nn' : NamespacedName)
      → get nn c.cache ≡ none
      → get_or [] (get nn' (put nn [] c.cache)) ≡ pods_of nn' c
  pods_of-put_empty nn' e = elim (Bool-cases (nn == nn')) [
    | inl same ↦
        ap (get_or [])
          (get-put nn nn' [] c.cache ∙ ap (λ b. if b then some [] else get nn' c.cache) same)
        ∙ sym (ap (get_or []) (subst (λ k. get k c.cache ≡ none) ((nn_eq.beq_iff nn nn').0 same) e))
    | inr other ↦
        ap (get_or [])
          (get-put nn nn' [] c.cache ∙ ap (λ b. if b then some [] else get nn' c.cache) other)
  ]

  pods_of-get_map :
      (nn' : NamespacedName) → pods_of nn' (get_pod_resource_amount_map c nn).1 ≡ pods_of nn' c
  unfolding get_pod_resource_amount_map
  pods_of-get_map nn' = elim (Option-cases (get nn c.cache)) [
    | inr (m, e) ↦ rw (e, get_pod_resource_amount_map) refl
    | inl e ↦ rw (e, get_pod_resource_amount_map) (pods_of-put_empty nn' e)
  ]

  -- `addPod` sets the entry of its pod on its throttle and leaves the rest alone; it reports
  -- whether the pod is new there.
  pub pods_of-add_pod :
      (pod : Pod Q) (nn' : NamespacedName)
      → pods_of nn' (add_pod c nn pod).0 ≡ (
          if nn == nn'
          then put (nn_of_pod pod) (resource_amount_of_pod pod) (pods_of nn c)
          else pods_of nn' c)
  unfolding add_pod add
  pods_of-add_pod pod nn' =
      pods_of-store_back (get_pod_resource_amount_map c nn).1 nn
        (put (nn_of_pod pod) (resource_amount_of_pod pod) (get_pod_resource_amount_map c nn).0) nn'
      ∙ ap₂
          (λ m rest. if nn == nn' then put (nn_of_pod pod) (resource_amount_of_pod pod) m else rest)
          get_map-pods_of (pods_of-get_map nn')

  pub added_lem :
      (pod : Pod Q) → (add_pod c nn pod).1 ≡ not (is_some (get (nn_of_pod pod) (pods_of nn c)))
  unfolding add_pod add
  added_lem pod = ap (λ m. not (is_some (get (nn_of_pod pod) m))) get_map-pods_of

  -- `removePod` deletes the entry of its pod on its throttle and leaves the rest alone; it reports
  -- whether there was one.
  pub pods_of-remove_pod :
      (pod : Pod Q) (nn' : NamespacedName)
      → pods_of nn' (remove_pod c nn pod).0
        ≡ (if nn == nn' then delete (nn_of_pod pod) (pods_of nn c) else pods_of nn' c)
  unfolding remove_pod remove
  pods_of-remove_pod pod nn' =
      pods_of-store_back (get_pod_resource_amount_map c nn).1 nn
        (delete (nn_of_pod pod) (get_pod_resource_amount_map c nn).0) nn'
      ∙ ap₂ (λ m rest. if nn == nn' then delete (nn_of_pod pod) m else rest) get_map-pods_of
          (pods_of-get_map nn')

  pub removed_lem :
      (pod : Pod Q) → (remove_pod c nn pod).1 ≡ is_some (get (nn_of_pod pod) (pods_of nn c))
  unfolding remove_pod remove
  removed_lem pod = ap (λ m. is_some (get (nn_of_pod pod) m)) get_map-pods_of

  -- A throttle without an entry has nothing reserved.
  pub reserved-total : reserved_resource_amount c nn ≡ total_resource_amount (pods_of nn c)
  unfolding reserved_resource_amount total_resource_amount for_range
  reserved-total = elim (Option-cases (get nn c.cache)) [
    | inr (m, e) ↦ rw (e, reserved_resource_amount, get_or) refl
    | inl e ↦ rw (e, reserved_resource_amount, get_or) refl
  ]
