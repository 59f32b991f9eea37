-- ===== src/Throttle/Room.antt =====
-- The room that a throttle has for a pod that it lets through.
use kube_throttler.Prelude.{
  string_eq, String, ◌≡◌, sym, ◌∙◌, ap, subst, Option-cases, Bool-cases, some, inl, inr, false,
}
use kube_throttler.Prelude.Int.{ℤ, pos, ◌+ℤ◌, ◌≤ℤ◌, int_laws, beq_ℤ_iff}
use kube_throttler.Prelude.GoMap.{get, IsMap}
use kube_throttler.Quantity.{Quantity}
use kube_throttler.Pod.{Pod}
use kube_throttler.ResourceAmount.{ResourceAmount, resource_amount_of_pod}
use kube_throttler.ResourceList.Entries.{amount_of, amount_of?}
use kube_throttler.Throttle.{
  Throttle, ClusterThrottle, ThrottleStatus, not_throttled, effective_threshold,
  check_throttled_for, cluster_check_throttled_for,
}
use kube_throttler.Throttle.Check.{check_not_throttled_iff, cluster_check_not_throttled_iff}
use kube_throttler.Throttle.Within.{amount_or_zero, WithinThreshold, Admissible-WithinThreshold}

-- What a status counts as used of a resource.
abbrev pub used_of : {Q : Type 0} → ⦃q : Quantity Q⦄ → String → ThrottleStatus Q → ℤ
used_of name status = amount_or_zero (amount_of name status.used.resource_requests)

-- What a pod requests of a resource.
abbrev pub asked : {Q : Type 0} → ⦃q : Quantity Q⦄ → String → Pod Q → ℤ
asked name pod = amount_or_zero (amount_of name (resource_amount_of_pod pod).resource_requests)

add_nothing : (u r t : ℤ) → u +ℤ r ≤ℤ t → (u +ℤ pos 0) +ℤ r ≤ℤ t
add_nothing u r t h = omega int_laws

module _ {Q : Type 0} ⦃q : Quantity Q⦄ (pod : Pod Q) (reserved : ResourceAmount Q) (name : String)
    (t : ℤ) where
  -- There is room for the pod beside what is used and reserved.
  abbrev pub HasRoom : ThrottleStatus Q → Type 0
  HasRoom status =
      (used_of name status +ℤ asked name pod)
        +ℤ amount_or_zero (amount_of name reserved.resource_requests)
      ≤ℤ t

  room_within :
      (threshold : ResourceAmount Q) (status : ThrottleStatus Q)
      → amount_of name threshold.resource_requests ≡ some t
      → used_of name status +ℤ amount_or_zero (amount_of name reserved.resource_requests) ≤ℤ t
      → WithinThreshold threshold status pod reserved
      → HasRoom status
  room_within threshold status e fits w =
      elim (Option-cases (get name (resource_amount_of_pod pod).resource_requests)) [
        | inl absent ↦ nothing_asked (ap (λ o. amount_or_zero (amount_of? o)) absent)
        | inr (x, there) ↦ elim (Bool-cases (q.is_zero x)) [
          | inl zero ↦ nothing_asked (
              ap (λ o. amount_or_zero (amount_of? o)) there
              ∙ (beq_ℤ_iff (q.amount x) (pos 0)).0 (sym (q.is_zero_lem x) ∙ zero))
          | inr more ↦ w.requests name x t there more e
        ]
      ]
    where
      nothing_asked : asked name pod ≡ pos 0 → HasRoom status
      nothing_asked z =
          subst
            (λ a.
              (used_of name status +ℤ a)
                +ℤ amount_or_zero (amount_of name reserved.resource_requests)
              ≤ℤ t)
            (sym z) (add_nothing (used_of name status) _ t fits)

  -- A throttle that lets the pod through has room for it, if what is used and reserved is within
  -- its threshold.
  pub throttle_room :
      {L : Type 0} (thr : Throttle Q L)
      → IsMap (effective_threshold thr.spec.base thr.status).resource_requests
      → IsMap thr.status.used.resource_requests
      → IsMap reserved.resource_requests
      → amount_of name (effective_threshold thr.spec.base thr.status).resource_requests ≡ some t
      → used_of name thr.status +ℤ amount_or_zero (amount_of name reserved.resource_requests) ≤ℤ t
      → check_throttled_for thr pod reserved false ≡ not_throttled
      → HasRoom thr.status
  throttle_room thr m u r e fits passed =
      room_within (effective_threshold thr.spec.base thr.status) thr.status e fits (
        Admissible-WithinThreshold thr.spec.base thr.status pod reserved u r
          ((check_not_throttled_iff thr pod reserved false m).0 passed))

  pub cluster_throttle_room :
      {L : Type 0} (thr : ClusterThrottle Q L)
      → IsMap (effective_threshold thr.spec.base thr.status).resource_requests
      → IsMap thr.status.used.resource_requests
      → IsMap reserved.resource_requests
      → amount_of name (effective_threshold thr.spec.base thr.status).resource_requests ≡ some t
      → used_of name thr.status +ℤ amount_or_zero (amount_of name reserved.resource_requests) ≤ℤ t
      → cluster_check_throttled_for thr pod reserved false ≡ not_throttled
      → HasRoom thr.status
  cluster_throttle_room thr m u r e fits passed =
      room_within (effective_threshold thr.spec.base thr.status) thr.status e fits (
        Admissible-WithinThreshold thr.spec.base thr.status pod reserved u r
          ((cluster_check_not_throttled_iff thr pod reserved false m).0 passed))
