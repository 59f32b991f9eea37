-- ===== src/Throttle/Within.antt =====
-- What an admissible pod leaves of a threshold: the sums of what is used, asked for and reserved.
use kube_throttler.Prelude.{
  string_eq, String, ◌≡◌, refl, sym, ◌∙◌, ap, subst, Bool, false, Option, none, some, arith, get_or,
}
use kube_throttler.Prelude.Int.{ℤ, pos, ◌+ℤ◌, ◌≤ℤ◌, IsInt64, wrap64_lem, int_laws, zero-+ℤ}
use mathlib.Core.Path.{ap₂}
use kube_throttler.Prelude.GoMap.{get, IsMap}
use kube_throttler.Quantity.{Quantity}
use kube_throttler.Pod.{Pod}
use kube_throttler.ResourceList.Entries.{amount_of, amount_of?, join}
use kube_throttler.ResourceAmount.{
  ResourceAmount, no_amount, add, added_counts, add_counts, resource_amount_of_pod,
}
use kube_throttler.ResourceAmount.Throttled.{exceeded, count_of}
use kube_throttler.ResourceAmount.Amounts.{add64, request-add, request_of_pod-IsMap}
use kube_throttler.Throttle.{ThrottleSpecBase, ThrottleStatus, effective_threshold}
use kube_throttler.Throttle.Check.{used_with, Admissible}

-- A missing amount counts as zero.
abbrev pub amount_or_zero : Option ℤ → ℤ
amount_or_zero o = get_or (pos 0) o

pub join_as_sum :
    (a b : Option ℤ) → amount_or_zero (join ◌+ℤ◌ a b) ≡ amount_or_zero a +ℤ amount_or_zero b
join_as_sum none none = omega int_laws
join_as_sum none (some b) = omega int_laws
join_as_sum (some a) none = omega int_laws
join_as_sum (some a) (some b) = refl

pub join-none_left : (a : Option ℤ) → join ◌+ℤ◌ none a ≡ a
join-none_left none = refl
join-none_left (some a) = refl

-- Use that does not exceed a threshold, being there, is at most the threshold.
le_of_not_exceeded :
    (u : Option ℤ) (t : ℤ) {v : ℤ} → u ≡ some v → exceeded false u (some t) ≡ false → v ≤ℤ t
le_of_not_exceeded none t e h = absurd (ground arith)
le_of_not_exceeded (some u) t e h = ground arith

-- Where nothing wraps around, a sum of machine integers is their sum.
pub join-right :
    (a : Option ℤ) (b : ℤ)
    → IsInt64 (amount_or_zero a +ℤ b)
    → join add64 a (some b) ≡ some (amount_or_zero a +ℤ b)
join-right none b i = ap some (sym (zero-+ℤ b))
join-right (some a) b i = ap some (wrap64_lem (a +ℤ b) i)

pub join-left :
    (a : ℤ) (b : Option ℤ)
    → IsInt64 (a +ℤ amount_or_zero b)
    → join add64 (some a) b ≡ some (a +ℤ amount_or_zero b)
join-left a none i = ap some (omega int_laws)
join-left a (some b) i = ap some (wrap64_lem (a +ℤ b) i)

within_requests :
    (u r : Option ℤ) (x t : ℤ)
    → exceeded false (join ◌+ℤ◌ (join ◌+ℤ◌ u (some x)) r) (some t) ≡ false
    → amount_or_zero u +ℤ x +ℤ amount_or_zero r ≤ℤ t
within_requests none none x t h = omega (int_laws, le_of_not_exceeded (some x) t refl h)
within_requests none (some r) x t h = omega (int_laws, le_of_not_exceeded (some (x +ℤ r)) t refl h)
within_requests (some u) none x t h = omega (int_laws, le_of_not_exceeded (some (u +ℤ x)) t refl h)
within_requests (some u) (some r) x t h =
    omega (int_laws, le_of_not_exceeded (some (u +ℤ x +ℤ r)) t refl h)

within_count :
    (u r : Option ℤ) (t : ℤ)
    → IsInt64 (amount_or_zero u +ℤ pos 1)
    → IsInt64 (amount_or_zero u +ℤ pos 1 +ℤ amount_or_zero r)
    → exceeded false (join add64 (join add64 u (some (pos 1))) r) (some t) ≡ false
    → amount_or_zero u +ℤ pos 1 +ℤ amount_or_zero r ≤ℤ t
within_count u r t i j h =
    le_of_not_exceeded (join add64 (join add64 u (some (pos 1))) r) t
      (ap (λ o. join add64 o r) (join-right u (pos 1) i)
        ∙ join-left (amount_or_zero u +ℤ pos 1) r j)
      h

module _ {Q : Type 0} ⦃q : Quantity Q⦄ where
  -- The three parts of the use that a check counts, for a name.
  pub amount_of-used_with :
      (status : ThrottleStatus Q) (pod : Pod Q) (reserved : ResourceAmount Q) (name : String)
      → IsMap status.used.resource_requests
      → IsMap reserved.resource_requests
      → amount_of name (used_with status pod reserved).resource_requests
        ≡ join ◌+ℤ◌
            (join ◌+ℤ◌
              (amount_of name status.used.resource_requests)
              (amount_of name (resource_amount_of_pod pod).resource_requests))
            (amount_of name reserved.resource_requests)
  unfolding get
  amount_of-used_with status pod reserved name u r =
      request-add _ reserved name r
      ∙ rw
          (request-add (add no_amount status.used) (resource_amount_of_pod pod) name
            (request_of_pod-IsMap pod))
          (rw (request-add no_amount status.used name u)
            (rw (join-none_left (amount_of name status.used.resource_requests)) refl))

  pub count-used_with :
      (status : ThrottleStatus Q) (pod : Pod Q) (reserved : ResourceAmount Q)
      → count_of (used_with status pod reserved).resource_counts
        ≡ join add64
            (join add64 (count_of status.used.resource_counts) (some (pos 1)))
            (count_of reserved.resource_counts)
  unfolding add added_counts add_counts resource_amount_of_pod
  count-used_with status pod reserved = ground arith

  -- What a name counts for with the pod: used, requested and reserved.
  abbrev pub total_request : ThrottleStatus Q → Pod Q → ResourceAmount Q → String → ℤ
  total_request status pod reserved name =
      amount_or_zero (amount_of name status.used.resource_requests)
      +ℤ amount_or_zero (amount_of name (resource_amount_of_pod pod).resource_requests)
      +ℤ amount_or_zero (amount_of name reserved.resource_requests)

  abbrev pub total_count : ThrottleStatus Q → ResourceAmount Q → ℤ
  total_count status reserved =
      amount_or_zero (count_of status.used.resource_counts)
      +ℤ pos 1
      +ℤ amount_or_zero (count_of reserved.resource_counts)

  -- Every resource that the pod asks for stays within the threshold, and so does the number of
  -- pods, where that is no more than a 64-bit integer holds.
  pub record WithinThreshold (threshold : ResourceAmount Q) (status : ThrottleStatus Q)
      (pod : Pod Q) (reserved : ResourceAmount Q) : Type 0 where
    pub requests :
        (name : String) (x : Q) (t : ℤ)
        → get name (resource_amount_of_pod pod).resource_requests ≡ some x
        → q.is_zero x ≡ false
        → amount_of name threshold.resource_requests ≡ some t
        → total_request status pod reserved name ≤ℤ t
    pub count :
        (t : ℤ)
        → count_of threshold.resource_counts ≡ some t
        → IsInt64 (amount_or_zero (count_of status.used.resource_counts) +ℤ pos 1)
        → IsInt64 (total_count status reserved)
        → total_count status reserved ≤ℤ t

  -- What is admitted stays within the threshold, by each resource and by the number of pods.
  pub Admissible-WithinThreshold :
      {at_once : Bool} (spec : ThrottleSpecBase Q) (status : ThrottleStatus Q) (pod : Pod Q)
      (reserved : ResourceAmount Q)
      → IsMap status.used.resource_requests
      → IsMap reserved.resource_requests
      → Admissible at_once false spec status pod reserved
      → WithinThreshold (effective_threshold spec status) status pod reserved
  Admissible-WithinThreshold spec status pod reserved u r a = record {
    requests = λ name x t e z et. within_requests' name x t e et (a.fits.1 name x e z);
    count = λ t et i j.
        within_count (count_of status.used.resource_counts) (count_of reserved.resource_counts) t i
          j (ap₂ (exceeded false) (sym (count-used_with status pod reserved)) (sym et) ∙ a.fits.0);
  }
    where
      within_requests' :
          (name : String) (x : Q) (t : ℤ)
          → get name (resource_amount_of_pod pod).resource_requests ≡ some x
          → amount_of name (effective_threshold spec status).resource_requests ≡ some t
          → exceeded false
              (amount_of name (used_with status pod reserved).resource_requests)
              (amount_of name (effective_threshold spec status).resource_requests)
            ≡ false
          → total_request status pod reserved name ≤ℤ t
      within_requests' name x t e et h =
          subst
            (λ o.
              amount_or_zero (amount_of name status.used.resource_requests)
                +ℤ amount_or_zero o
                +ℤ amount_or_zero (amount_of name reserved.resource_requests)
              ≤ℤ t)
            (sym (ap amount_of? e))
            (within_requests (amount_of name status.used.resource_requests)
              (amount_of name reserved.resource_requests) (q.amount x) t
              (ap₂ (exceeded false)
                  (ap
                      (λ o.
                        join ◌+ℤ◌ (join ◌+ℤ◌ (amount_of name status.used.resource_requests) o)
                          (amount_of name reserved.resource_requests))
                      (sym (ap amount_of? e))
                    ∙ sym (amount_of-used_with status pod reserved name u r))
                  (sym et)
                ∙ h))
