-- ===== src/ThrottleSpec.antt =====
-- pkg/apis/schedule/v1alpha1/temporary_threshold_override.go, and the methods of
-- `ThrottleSpecBase` in throttle_types.go: which override is active, what the threshold is at a
-- time, and when it may change next. `parse` stands for `time.Parse(time.RFC3339, …)`.
pub mod Active
pub mod Merge
pub mod Wakeup
use kube_throttler.Prelude.{
  string_eq, ◌==◌, ℕ, zero, suc, ◌+◌, String, Bool, true, false, not, ◌&&◌, ◌||◌, Option, none,
  some, List, [], ◌∷◌, ◌++◌, if◌then◌else◌, ◌^◌, ◌-◌,
}
use kube_throttler.Prelude.Int.{ℤ, pos, negsuc, ◌-ℤ◌, ltb_ℤ, beq_ℤ}
use kube_throttler.Prelude.GoMap.{has, put, for_range}
use kube_throttler.Errors.{Error, wrap, at_index, Result, ok, err, ◌>>=◌}
use kube_throttler.Pod.{ResourceList}
use kube_throttler.ResourceAmount.{ResourceAmount, ResourceCounts, no_amount}
use kube_throttler.Throttle.{
  Time, is_zero_time, CalculatedThreshold, TemporaryThresholdOverride, ThrottleSpecBase,
}

-- A `time.Duration`, in nanoseconds.
abbrev pub Duration : Type 0
Duration = ℤ

abbrev pub max_duration : Duration
max_duration = pos (2 ^ 63 - 1)

abbrev pub min_duration : Duration
min_duration = negsuc (2 ^ 63 - 1)

-- `t.After(u)`
abbrev pub after : Time → Time → Bool
after t u = ltb_ℤ u t

-- `t.Before(u)`
abbrev pub before : Time → Time → Bool
before t u = ltb_ℤ t u

-- `t.Equal(u)`
abbrev pub equal : Time → Time → Bool
equal t u = beq_ℤ t u

-- `t.Sub(u)`, which stops at the ends of the range of a duration
unfoldable pub sub_time : Time → Time → Duration
sub_time t u =
    let d = t -ℤ u in
    if ltb_ℤ max_duration d then max_duration else if ltb_ℤ d min_duration then min_duration else d

-- `if err != nil { return …, errors.Wrap(err, text) }`
abbrev pub wrap_error : String → Result Time → Result Time
wrap_error text (ok t) = ok t
wrap_error text (err e) = err (wrap text e)

-- the closure `updateIfNeeded`
unfoldable pub update_if_needed : Duration → Option Duration → Option Duration
update_if_needed d none = some d
update_if_needed d (some next_happen_after) =
    if ltb_ℤ d next_happen_after then some d else some next_happen_after

-- `if t.After(now) { updateIfNeeded(t.Sub(now)) }`
unfoldable pub consider : Time → Time → Option Duration → Option Duration
unfolding update_if_needed sub_time
consider now t next_happen_after =
    if after t now then update_if_needed (sub_time t now) next_happen_after else next_happen_after

-- What the loop of `CalculateThreshold` changes.
pub record Overriding (Q : Type 0) : Type 0 where
  pub active_found : Bool
  pub override_result : ResourceAmount Q
  pub err_messages : List Error

-- the first override lives for the count
abbrev pub first_counts : Option ResourceCounts → Option ResourceCounts → Option ResourceCounts
first_counts none o = o
first_counts (some c) o = some c

-- and for each request
unfoldable pub merge_requests : {Q : Type 0} → ResourceList Q → ResourceList Q → ResourceList Q
merge_requests merged requests =
    for_range requests merged (λ rn rq m. if has rn m then m else put rn rq m)

-- the body of the loop of `CalculateThreshold`, with what `IsActive` said
abbrev pub use_override :
    {Q : Type 0} → ℕ → TemporaryThresholdOverride Q → Result Bool → Overriding Q → Overriding Q
use_override i o (err e) s = record s { err_messages = s.err_messages ++ at_index i e ∷ [] }
use_override i o (ok false) s = s
use_override i o (ok true) s = record s {
  active_found = true;
  override_result = record {
    resource_counts = first_counts s.override_result.resource_counts o.threshold.resource_counts;
    resource_requests =
        merge_requests s.override_result.resource_requests o.threshold.resource_requests;
  };
}

module _ {Q : Type 0} (parse : String → Result Time) where
  unfoldable pub begin_time : TemporaryThresholdOverride Q → Result Time
  begin_time o =
      if not (o.begin == "") then wrap_error "Failed to parse Begin" (parse o.begin) else ok (pos 0)

  unfoldable pub end_time : TemporaryThresholdOverride Q → Result Time
  end_time o =
      if not (o.end == "") then wrap_error "Failed to parse End" (parse o.end) else ok (pos 0)

  unfoldable pub is_active : TemporaryThresholdOverride Q → Time → Result Bool
  is_active o now = do
    begin_t ← begin_time o
    end_t ← end_time o
    ok (
        (before begin_t now || equal begin_t now)
        && (is_zero_time end_t || (before now end_t || equal now end_t)))

  -- a round of the loop of `NextOverrideHappensIn`
  unfoldable pub next_of_override :
      Time → TemporaryThresholdOverride Q → Option Duration → Option Duration
  unfolding begin_time end_time consider
  next_of_override now o next_happen_after = elim (begin_time o) [
    | err e ↦ next_happen_after
    | ok begin_t ↦ elim (end_time o) [
      | err e ↦ consider now begin_t next_happen_after
      | ok end_t ↦ consider now end_t (consider now begin_t next_happen_after)
    ]
  ]

  unfoldable pub next_loop :
      Time → List (TemporaryThresholdOverride Q) → Option Duration → Option Duration
  unfolding next_of_override
  next_loop now [] next_happen_after = next_happen_after
  next_loop now (o ∷ os) next_happen_after =
      next_loop now os (next_of_override now o next_happen_after)

  unfoldable pub next_override_happens_in : ThrottleSpecBase Q → Time → Result (Option Duration)
  unfolding next_loop
  next_override_happens_in b now = ok (next_loop now b.temporary_threshold_overrides none)

  -- a round of the loop of `CalculateThreshold`
  unfoldable pub override_round :
      Time → ℕ → TemporaryThresholdOverride Q → Overriding Q → Overriding Q
  unfolding is_active merge_requests
  override_round now i o s = use_override i o (is_active o now) s

  unfoldable pub override_loop :
      Time → ℕ → List (TemporaryThresholdOverride Q) → Overriding Q → Overriding Q
  unfolding override_round
  override_loop now i [] s = s
  override_loop now i (o ∷ os) s = override_loop now (i + 1) os (override_round now i o s)

  unfoldable pub calculate_threshold : ThrottleSpecBase Q → Time → CalculatedThreshold Q
  unfolding override_loop
  calculate_threshold b now =
      let s =
        override_loop now 0 b.temporary_threshold_overrides
          (record { active_found = false; override_result = no_amount; err_messages = [] }) in
      record {
        threshold = if s.active_found then s.override_result else b.threshold;
        calculated_at = now;
        messages = s.err_messages;
      }
