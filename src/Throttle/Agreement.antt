-- ===== src/Throttle/Agreement.antt =====
-- The two methods `CheckThrottledFor`, of throttle_types.go and clusterthrottle_types.go, compared.
use kube_throttler.Prelude.{
  string_eq, String, ◌≡◌, refl, sym, ◌∙◌, ap, subst, ◌↔◌, Bool, true, false, Option, none, some,
  arith,
}
use kube_throttler.Prelude.Int.{ℤ, pos, ◌+ℤ◌, ◌≤ℤ◌, ◌<ℤ◌, IsInt64, zero-+ℤ, int_laws}
use mathlib.Core.Path.{subst₂}
use kube_throttler.Prelude.GoMap.{get, IsMap}
use kube_throttler.Quantity.{Quantity}
use kube_throttler.Pod.{Pod}
use kube_throttler.ResourceList.Entries.{amount_of, amount_of?, join}
use kube_throttler.ResourceAmount.{
  ResourceAmount, no_amount, add, added_counts, add_counts, resource_amount_of_pod,
}
use kube_throttler.ResourceAmount.Throttled.{Fits, exceeded, count_of}
use kube_throttler.ResourceAmount.Amounts.{add64, request-add}
use kube_throttler.Throttle.{
  Throttle, ClusterThrottle, ThrottleSpecBase, ThrottleStatus, effective_threshold,
  check_throttled_for, cluster_check_throttled_for, not_throttled,
}
use kube_throttler.Throttle.Check.{
  Admissible, already_used, used_with, check_not_throttled_iff, cluster_check_not_throttled_iff,
}
use kube_throttler.Throttle.Within.{
  amount_or_zero, amount_of-used_with, count-used_with, join-none_left, join-left, join-right,
}

exceeded_weaken : (u t : Option ℤ) → exceeded true u t ≡ false → exceeded false u t ≡ false
exceeded_weaken none t h = refl
exceeded_weaken (some u) none h = refl
exceeded_weaken (some u) (some t) h = ground arith

not_exceeded : (on_equal : Bool) (t : Option ℤ) → exceeded on_equal none t ≡ false
not_exceeded on_equal t = refl

-- With something on top that is above zero, use that stays at the threshold was below it.
below_of_at_most :
    (a b : ℤ) (t : Option ℤ)
    → a <ℤ b
    → exceeded false (some b) t ≡ false
    → exceeded true (some a) t ≡ false
below_of_at_most a b none lt h = refl
below_of_at_most a b (some t) lt h = ground arith

room_of_request :
    (u r : Option ℤ) (x : ℤ) (t : Option ℤ)
    → pos 0 <ℤ x
    → exceeded false (join ◌+ℤ◌ (join ◌+ℤ◌ u (some x)) r) t ≡ false
    → exceeded true (join ◌+ℤ◌ u r) t ≡ false
room_of_request none none x t p h = refl
room_of_request none (some r) x t p h = below_of_at_most r (x +ℤ r) t (omega int_laws) h
room_of_request (some u) none x t p h = below_of_at_most u (u +ℤ x) t (omega int_laws) h
room_of_request (some u) (some r) x t p h =
    below_of_at_most (u +ℤ r) (u +ℤ x +ℤ r) t (omega int_laws) h

-- Where nothing wraps around.
pub record CountsFit (u r : Option ℤ) : Type 0 where
  pub next : IsInt64 (amount_or_zero u +ℤ pos 1)
  pub all : IsInt64 (amount_or_zero u +ℤ pos 1 +ℤ amount_or_zero r)
  pub now : IsInt64 (amount_or_zero u +ℤ amount_or_zero r)

room_of_count :
    (u r t : Option ℤ)
    → CountsFit u r
    → exceeded false (join add64 (join add64 u (some (pos 1))) r) t ≡ false
    → exceeded true (join add64 u r) t ≡ false
room_of_count none none t c h = refl
room_of_count none (some r) t c h = below_of_at_most r (pos 1 +ℤ r) t (omega int_laws) (
    ap (λ o. exceeded false o t)
      (sym (join-left (pos 1) (some r) (subst IsInt64 (ap (λ z. z +ℤ r) (zero-+ℤ (pos 1))) c.all)))
    ∙ h)
room_of_count (some u) none t c h =
    below_of_at_most u (u +ℤ pos 1) t (omega int_laws)
      (ap (λ o. exceeded false o t) (sym (join-right (some u) (pos 1) c.next)) ∙ h)
room_of_count (some u) (some r) t c h =
    ap (λ o. exceeded true o t) (join-left u (some r) c.now)
    ∙ below_of_at_most (u +ℤ r) (u +ℤ pos 1 +ℤ r) t (omega int_laws) (
        sym (
          ap (λ o. exceeded false o t)
            (ap (λ o. join add64 o (some r)) (join-right (some u) (pos 1) c.next)
              ∙ join-left (u +ℤ pos 1) (some r) c.all))
        ∙ h)

module _ {Q : Type 0} ⦃q : Quantity Q⦄ where
  pub amount_of-already_used :
      (status : ThrottleStatus Q) (reserved : ResourceAmount Q) (name : String)
      → IsMap status.used.resource_requests
      → IsMap reserved.resource_requests
      → amount_of name (already_used status reserved).resource_requests
        ≡ join ◌+ℤ◌
            (amount_of name status.used.resource_requests)
            (amount_of name reserved.resource_requests)
  unfolding get
  amount_of-already_used status reserved name u r =
      request-add _ reserved name r
      ∙ ap (λ o. join ◌+ℤ◌ o (amount_of name reserved.resource_requests))
          (request-add no_amount status.used name u
            ∙ join-none_left (amount_of name status.used.resource_requests))

  pub count-already_used :
      (status : ThrottleStatus Q) (reserved : ResourceAmount Q)
      → count_of (already_used status reserved).resource_counts
        ≡ join add64 (count_of status.used.resource_counts) (count_of reserved.resource_counts)
  unfolding add added_counts add_counts
  count-already_used status reserved = ground arith

  -- No pod asks for less than nothing.
  abbrev pub NonNegative : Pod Q → Type 0
  NonNegative pod =
      (name : String) (x : Q)
      → get name (resource_amount_of_pod pod).resource_requests ≡ some x
      → pos 0 ≤ℤ q.amount x

  positive : (x : Q) → pos 0 ≤ℤ q.amount x → q.is_zero x ≡ false → pos 0 <ℤ q.amount x
  positive x h z = ground (arith, q.is_zero_lem x)

  room_of_Fits :
      (spec : ThrottleSpecBase Q) (status : ThrottleStatus Q) (pod : Pod Q)
      (reserved : ResourceAmount Q)
      → IsMap status.used.resource_requests
      → IsMap reserved.resource_requests
      → NonNegative pod
      → CountsFit (count_of status.used.resource_counts) (count_of reserved.resource_counts)
      → Fits false (effective_threshold spec status) (used_with status pod reserved) pod
      → Fits true (effective_threshold spec status) (already_used status reserved) pod
  room_of_Fits spec status pod reserved u r n c f = (
    ap (λ o. exceeded true o (count_of (effective_threshold spec status).resource_counts))
          (count-already_used status reserved)
        ∙ room_of_count (count_of status.used.resource_counts) (count_of reserved.resource_counts)
            (count_of (effective_threshold spec status).resource_counts) c
            (ap (λ o. exceeded false o (count_of (effective_threshold spec status).resource_counts))
                (sym (count-used_with status pod reserved))
              ∙ f.0),
    λ name x e z.
        let t = amount_of name (effective_threshold spec status).resource_requests in
        let us = amount_of name status.used.resource_requests in
        let rs = amount_of name reserved.resource_requests in
        ap (λ o. exceeded true o t) (amount_of-already_used status reserved name u r)
        ∙ room_of_request us rs (q.amount x) t (positive x (n name x e) z) (
            ap (λ o. exceeded false (join ◌+ℤ◌ (join ◌+ℤ◌ us o) rs) t) (sym (ap amount_of? e))
            ∙ ap (λ o. exceeded false o t) (sym (amount_of-used_with status pod reserved name u r))
            ∙ f.1 name x e z),
  )

  Fits-weaken :
      (threshold used : ResourceAmount Q) (pod : Pod Q)
      → Fits true threshold used pod
      → Fits false threshold used pod
  Fits-weaken threshold used pod f = (
    exceeded_weaken (count_of used.resource_counts) (count_of threshold.resource_counts) f.0,
    λ name x e z.
        exceeded_weaken (amount_of name used.resource_requests)
          (amount_of name threshold.resource_requests) (f.1 name x e z),
  )

  pub strictness_irrelevant :
      (spec : ThrottleSpecBase Q) (status : ThrottleStatus Q) (pod : Pod Q)
      (reserved : ResourceAmount Q)
      → IsMap status.used.resource_requests
      → IsMap reserved.resource_requests
      → NonNegative pod
      → CountsFit (count_of status.used.resource_counts) (count_of reserved.resource_counts)
      → Admissible true false spec status pod reserved
        ↔ Admissible false false spec status pod reserved
  strictness_irrelevant spec status pod reserved u r n c = (
    λ a. record {
      alone = a.alone;
      open_status = a.open_status;
      room =
          Fits-weaken (effective_threshold spec status) (already_used status reserved) pod a.room;
      fits = a.fits;
    },
    λ a. record {
      alone = a.alone;
      open_status = a.open_status;
      room = room_of_Fits spec status pod reserved u r n c a.fits;
      fits = a.fits;
    },
  )

module _ {Q L : Type 0} ⦃q : Quantity Q⦄ (thr : Throttle Q L) (cluster : ClusterThrottle Q L)
    (same_spec : thr.spec.base ≡ cluster.spec.base) (same_status : thr.status ≡ cluster.status)
    (pod : Pod Q) (reserved : ResourceAmount Q) where
  -- With the same specification and status, a `Throttle` and a `ClusterThrottle` let the same pods
  -- through, if the pod asks for no negative amount, no pod count wraps around, and the requests of
  -- the threshold in force, of the use and of the reservation are maps.
  pub checks_agree :
      IsMap (effective_threshold thr.spec.base thr.status).resource_requests
      → IsMap thr.status.used.resource_requests
      → IsMap reserved.resource_requests
      → NonNegative pod
      → CountsFit (count_of thr.status.used.resource_counts) (count_of reserved.resource_counts)
      → (check_throttled_for thr pod reserved false ≡ not_throttled)
        ↔ (cluster_check_throttled_for cluster pod reserved false ≡ not_throttled)
  checks_agree d u r n c =
      let strict = strictness_irrelevant thr.spec.base thr.status pod reserved u r n c in
      let there = check_not_throttled_iff thr pod reserved false d in
      let d' : IsMap (effective_threshold cluster.spec.base cluster.status).resource_requests =
        subst₂ (λ b s. IsMap (effective_threshold b s).resource_requests) same_spec same_status d in
      let here = cluster_check_not_throttled_iff cluster pod reserved false d' in
      (
        λ h. here.1 (
            subst₂ (λ b s. Admissible false false b s pod reserved) same_spec same_status
              (strict.0 (there.0 h))),
        λ h. there.1 (
            strict.1 (
              subst₂ (λ b s. Admissible false false b s pod reserved) (sym same_spec)
                (sym same_status) (here.0 h))),
      )
