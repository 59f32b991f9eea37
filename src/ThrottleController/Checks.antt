-- ===== src/ThrottleController/Checks.antt =====
-- What `CheckThrottled` of throttle_controller.go returns.
use kube_throttler.Prelude.{
  Bool, true, false, List, [], ◌∷◌, ◌++◌, ◌+◌, ◌≡◌, refl, ◌∙◌, ap, if◌then◌else◌, ◌↔◌, arith,
}
use mathlib.Core.List.{append_assoc, append-nil}
use kube_throttler.Prelude.Lists.{length, for_each, select, All}
use kube_throttler.Quantity.{Quantity}
use kube_throttler.Errors.{ok, ◌>>=◌}
use kube_throttler.Pod.{Pod}
use kube_throttler.Throttle.{
  Throttle, CheckThrottleStatus, not_throttled, active, insufficient,
  pod_requests_exceeds_threshold,
}
use kube_throttler.Reserved.{ReservedResourceAmounts}
use kube_throttler.ThrottleController.{
  Environment, State, Checked, affected_throttles, check_on, place, check_one, check_throttled,
}

-- a test for the equality of statuses
abbrev pub is_status : CheckThrottleStatus → CheckThrottleStatus → Bool
is_status not_throttled not_throttled = true
is_status active active = true
is_status insufficient insufficient = true
is_status pod_requests_exceeds_threshold pod_requests_exceeds_threshold = true
is_status _ _ = false

none_refused_step :
    {A : Type 0} (x : A) (l1 l2 l3 : List A) {P : Type 0} (s : CheckThrottleStatus)
    → ((length l1 + length l2 + length l3 ≡ 0) ↔ P)
    → (length (if is_status active s then x ∷ l1 else l1)
          + length (if is_status insufficient s then x ∷ l2 else l2)
          + length (if is_status pod_requests_exceeds_threshold s then x ∷ l3 else l3)
        ≡ 0)
      ↔ ((s ≡ not_throttled) × P)
none_refused_step x l1 l2 l3 active h = (λ e. absurd (omega arith), λ p. absurd (cc))
none_refused_step x l1 l2 l3 insufficient h = (λ e. absurd (omega arith), λ p. absurd (cc))
none_refused_step x l1 l2 l3 pod_requests_exceeds_threshold h =
    (λ e. absurd (omega arith), λ p. absurd (cc))
none_refused_step x l1 l2 l3 not_throttled h = (λ e. (refl, h.0 e), λ p. h.1 p.1)

-- No element is refused if and only if nothing is selected by the three statuses that refuse.
pub none_refused :
    {A : Type 0} (f : A → CheckThrottleStatus) (xs : List A)
    → (length (select (λ x. is_status active (f x)) xs)
          + length (select (λ x. is_status insufficient (f x)) xs)
          + length (select (λ x. is_status pod_requests_exceeds_threshold (f x)) xs)
        ≡ 0)
      ↔ All (λ x. f x ≡ not_throttled) xs
unfolding select
none_refused f [] = (λ _. tt, λ _. refl)
none_refused f (x ∷ xs) =
    none_refused_step x (select (λ x. is_status active (f x)) xs)
      (select (λ x. is_status insufficient (f x)) xs)
      (select (λ x. is_status pod_requests_exceeds_threshold (f x)) xs) (f x) (none_refused f xs)

module _ {Q L Store : Type 0} ⦃q : Quantity Q⦄ (env : Environment Q L Store)
    (c : ReservedResourceAmounts Q) (pod : Pod Q) (on_equal : Bool) where
  abbrev pub says : CheckThrottleStatus → Throttle Q L → Bool
  says status thr = is_status status (check_on env c pod on_equal thr)

  -- the throttles sorted by what they say of the pod, after what there is
  abbrev pub sorted_after : List (Throttle Q L) → Checked Q L → Checked Q L
  sorted_after throttles r = record {
    already_throttled = r.already_throttled ++ select (says active) throttles;
    insufficient_ones = r.insufficient_ones ++ select (says insufficient) throttles;
    exceeding = r.exceeding ++ select (says pod_requests_exceeds_threshold) throttles;
    affected = r.affected ++ throttles;
  }

  sorted_after-place :
      (thr : Throttle Q L) (throttles : List (Throttle Q L)) (r : Checked Q L)
      (s : CheckThrottleStatus)
      → let picked : CheckThrottleStatus → List (Throttle Q L) = λ status.
        if is_status status s
        then thr ∷ select (says status) throttles
        else select (says status) throttles in
        sorted_after throttles (place thr (record r { affected = r.affected ++ thr ∷ [] }) s)
        ≡ record {
          already_throttled = r.already_throttled ++ picked active;
          insufficient_ones = r.insufficient_ones ++ picked insufficient;
          exceeding = r.exceeding ++ picked pod_requests_exceeds_threshold;
          affected = r.affected ++ thr ∷ throttles;
        }
  unfolding place
  sorted_after-place thr throttles r active =
      rw
        (
          append_assoc r.affected (thr ∷ []) throttles,
          append_assoc r.already_throttled (thr ∷ []) (select (says active) throttles),
        )
        refl
  sorted_after-place thr throttles r insufficient =
      rw
        (
          append_assoc r.affected (thr ∷ []) throttles,
          append_assoc r.insufficient_ones (thr ∷ []) (select (says insufficient) throttles),
        )
        refl
  sorted_after-place thr throttles r pod_requests_exceeds_threshold =
      rw
        (
          append_assoc r.affected (thr ∷ []) throttles,
          append_assoc r.exceeding (thr ∷ [])
              (select (says pod_requests_exceeds_threshold) throttles),
        )
        refl
  sorted_after-place thr throttles r not_throttled =
      rw (append_assoc r.affected (thr ∷ []) throttles) refl

  check_one-for_each :
      (throttles : List (Throttle Q L)) (r : Checked Q L)
      → for_each throttles r (check_one env c pod on_equal) ≡ sorted_after throttles r
  unfolding for_each select check_one
  check_one-for_each [] r =
      rw
        (
          append-nil r.affected,
          append-nil r.already_throttled,
          append-nil r.insufficient_ones,
          append-nil r.exceeding,
        )
        refl
  check_one-for_each (thr ∷ throttles) r =
      check_one-for_each throttles (check_one env c pod on_equal thr r)
      ∙ sorted_after-place thr throttles r (check_on env c pod on_equal thr)

module _ {Q L Store : Type 0} ⦃q : Quantity Q⦄ (env : Environment Q L Store) where
  -- If the throttles that concern a pod are found, then `CheckThrottled` returns all of them, and,
  -- each in the order in which they were found, those that say `active`, those that say
  -- `insufficient` and those that say that the pod exceeds their threshold.
  pub check_throttled_lem :
      (s : State Q L Store) (pod : Pod Q) (on_equal : Bool) (throttles : List (Throttle Q L))
      → affected_throttles env s.throttles pod ≡ ok throttles
      → check_throttled env s pod on_equal
        ≡ ok (record {
          already_throttled = select (says env s.cache pod on_equal active) throttles;
          insufficient_ones = select (says env s.cache pod on_equal insufficient) throttles;
          exceeding =
              select (says env s.cache pod on_equal pod_requests_exceeds_threshold) throttles;
          affected = throttles;
        })
  unfolding check_throttled
  check_throttled_lem s pod on_equal throttles found =
      rw (found, ◌>>=◌)
        (ap ok (
          check_one-for_each env s.cache pod on_equal throttles (record {
            already_throttled = [];
            insufficient_ones = [];
            exceeding = [];
            affected = [];
          })))
