-- ===== src/ThrottleSpec/Active.antt =====
-- When an override is active, and what the end of its term does.
use kube_throttler.Prelude.{
  string_eq, String, ◌≡◌, refl, sym, ◌∙◌, ap, ◌↔◌, ◌⊎◌, inr, true, false, ◌&&◌, ◌||◌, Option, none,
  [], ◌∷◌, arith,
}
use kube_throttler.Prelude.Int.{pos, ◌≤ℤ◌, ◌<ℤ◌, ltb_ℤ, beq_ℤ, eq_of_parts}
use kube_throttler.Errors.{Result, ok, err, ok-subst, ◌>>=◌}
use kube_throttler.Throttle.{Time, TemporaryThresholdOverride, ThrottleSpecBase}
use kube_throttler.ThrottleSpec.{
  Duration, begin_time, end_time, is_active, consider, next_of_override, next_loop,
  next_override_happens_in, merge_requests, override_round, override_loop, calculate_threshold,
}

-- A time lies in the term: both ends belong to it, and a zero end is no end.
abbrev pub InTerm : Time → Time → Time → Type 0
InTerm b e now = (b ≤ℤ now) × ((e ≡ pos 0) ⊎ (now ≤ℤ e))

InTerm-iff :
    (b e now : Time)
    → (((ltb_ℤ b now || beq_ℤ b now) && (beq_ℤ e (pos 0) || (ltb_ℤ now e || beq_ℤ now e))) ≡ true)
      ↔ InTerm b e now
InTerm-iff b e now = (λ h. (ground arith, ground (arith, eq_of_parts e (pos 0))), λ h. ground arith)

consider_past : (now t : Time) (acc : Option Duration) → t ≤ℤ now → consider now t acc ≡ acc
unfolding consider
consider_past now t acc h = ground arith

module _ {Q : Type 0} (parse : String → Result Time) where
  -- An override is active exactly when its begin and its end can be read and the time lies in
  -- between, both ends included; an empty end is no end.
  pub is_active_iff :
      (o : TemporaryThresholdOverride Q) (now : Time)
      → (is_active parse o now ≡ ok true)
        ↔ ((b e : Time) × (begin_time parse o ≡ ok b) × (end_time parse o ≡ ok e) × InTerm b e now)
  unfolding is_active
  is_active_iff o now = (
    sound (begin_time parse o) (end_time parse o),
    λ h. rw (h.2, h.3, ◌>>=◌) (ap ok ((InTerm-iff h.0 h.1 now).1 h.4)),
  )
    where
      sound :
          (bt et : Result Time)
          → (bt >>= λ b. et >>= λ e.
              ok
                ((ltb_ℤ b now || beq_ℤ b now) && (beq_ℤ e (pos 0) || (ltb_ℤ now e || beq_ℤ now e))))
            ≡ ok true
          → (b e : Time) × (bt ≡ ok b) × (et ≡ ok e) × InTerm b e now
      sound (ok b) (ok e) h =
          (b, e, refl, refl, (InTerm-iff b e now).0 (ok-subst (λ c. c ≡ true) (sym h) refl))
      sound (ok b) (err x) h = absurd (cc)
      sound (err x) et h = absurd (cc)

  next_of_ended :
      (o : TemporaryThresholdOverride Q) (bt now : Time) (acc : Option Duration)
      → begin_time parse o ≡ ok bt
      → end_time parse o ≡ ok now
      → bt ≤ℤ now
      → next_of_override parse now o acc ≡ acc
  unfolding next_of_override
  next_of_ended o bt now acc hb he le =
      rw (next_of_override, hb, he)
        (consider_past now now (consider now bt acc) (omega arith) ∙ consider_past now bt acc le)

  is_active_ended :
      (o : TemporaryThresholdOverride Q) (bt now t : Time)
      → begin_time parse o ≡ ok bt
      → end_time parse o ≡ ok now
      → pos 0 <ℤ now
      → now <ℤ t
      → is_active parse o t ≡ ok false
  unfolding is_active
  is_active_ended o bt now t hb he p lt = rw (hb, he, ◌>>=◌) (ap ok (ground arith))

  -- Say that a single override has begun and ends at this very instant, later than Go's zero time.
  -- Then no wake-up is due, the threshold is still the override's, and at any later time it is the
  -- specified one.
  pub end_instant_missed :
      (b : ThrottleSpecBase Q) (o : TemporaryThresholdOverride Q) (bt now later : Time)
      → b.temporary_threshold_overrides ≡ o ∷ []
      → begin_time parse o ≡ ok bt
      → end_time parse o ≡ ok now
      → bt ≤ℤ now
      → pos 0 <ℤ now
      → now <ℤ later
      → (next_override_happens_in parse b now ≡ ok none)
        × ((calculate_threshold parse b now).threshold ≡ record {
          resource_counts = o.threshold.resource_counts;
          resource_requests = merge_requests [] o.threshold.resource_requests;
        })
        × ((calculate_threshold parse b later).threshold ≡ b.threshold)
  unfolding next_override_happens_in next_loop calculate_threshold override_loop override_round
  end_instant_missed b o bt now later single hb he le p lt =
      let here : is_active parse o now ≡ ok true =
        (is_active_iff o now).1 (bt, now, hb, he, (le, inr (omega arith))) in
      (
        rw (single, next_loop) (ap ok (next_of_ended o bt now none hb he le)),
        rw (single, override_loop, here) refl,
        rw (single, override_loop, is_active_ended o bt now later hb he p lt) refl,
      )
