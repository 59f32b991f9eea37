-- ===== src/ThrottleSpec/Wakeup.antt =====
-- How the calculated threshold and the wake-up that `NextOverrideHappensIn` of throttle_types.go
-- names go together.
use kube_throttler.Prelude.{
  string_eq, ℕ, ◌+◌, String, ◌≡◌, refl, sym, ap, subst, Bool, false, ◌&&◌, ◌||◌, Option, none, some,
  List, [], ◌∷◌, arith, if◌then◌else◌, Bool-cases, inl, inr,
}
use kube_throttler.Prelude.Int.{
  pos, ◌+ℤ◌, ◌-ℤ◌, ◌≤ℤ◌, ◌<ℤ◌, ltb_ℤ, beq_ℤ, -ℤ_parts, int_laws, eq_of_parts, pos_part, neg_part,
}
use kube_throttler.Prelude.Lists.{All}
use kube_throttler.Errors.{Result, ok, err, ok-subst, ◌>>=◌}
use kube_throttler.ResourceAmount.{no_amount}
use kube_throttler.Throttle.{Time, TemporaryThresholdOverride, ThrottleSpecBase}
use kube_throttler.ThrottleSpec.{
  Duration, sub_time, update_if_needed, begin_time, end_time, is_active, consider, next_of_override,
  next_loop, next_override_happens_in, Overriding, override_round, override_loop,
  calculate_threshold,
}

-- `t` comes before the wake-up, if there is one.
abbrev pub Within : Time → Time → Option Duration → Type 0
Within now t none = Unit
Within now t (some d) = t <ℤ now +ℤ d

sub_time-le : (b now : Time) → now <ℤ b → sub_time b now ≤ℤ b -ℤ now
unfolding sub_time
sub_time-le b now h = ground (arith, -ℤ_parts b now)

Within-update :
    (now t b : Time) (o : Option Duration)
    → now <ℤ b
    → Within now t (update_if_needed (sub_time b now) o)
    → Within now t o × (t <ℤ b)
unfolding update_if_needed
Within-update now t b none h w = (tt, omega (int_laws, sub_time-le b now h))
Within-update now t b (some d) h w = elim (Bool-cases (ltb_ℤ (sub_time b now) d)) [
  | inl less ↦
      let w' : t <ℤ now +ℤ sub_time b now =
        subst (λ c. Within now t (if c then some (sub_time b now) else some d)) less w in
      let less' : sub_time b now <ℤ d = ground arith in
      (omega (int_laws, less'), omega (int_laws, sub_time-le b now h))
  | inr more ↦
      let w' : t <ℤ now +ℤ d =
        subst (λ c. Within now t (if c then some (sub_time b now) else some d)) more w in
      let more' : d ≤ℤ sub_time b now = ground arith in
      (w', omega (int_laws, more', sub_time-le b now h))
]

Within-consider :
    (now t b : Time) (o : Option Duration)
    → Within now t (consider now b o)
    → Within now t o × (now <ℤ b → t <ℤ b)
unfolding consider
Within-consider now t b o w = elim (Bool-cases (ltb_ℤ now b)) [
  | inl later ↦
      let r = Within-update now t b o (ground arith) (
        subst (λ c. Within now t (if c then update_if_needed (sub_time b now) o else o)) later w) in
      (r.0, λ _. r.1)
  | inr past ↦ (
    subst (λ c. Within now t (if c then update_if_needed (sub_time b now) o else o)) past w,
    λ h. absurd (ground arith),
  )
]

-- What `IsActive` says of a time stays the same until the next begin or end.
abbrev in_term : Time → Time → Time → Bool
in_term b e u = (ltb_ℤ b u || beq_ℤ b u) && (beq_ℤ e (pos 0) || (ltb_ℤ u e || beq_ℤ u e))

steady :
    (now t b e : Time)
    → now ≤ℤ t
    → (now <ℤ b → t <ℤ b)
    → (now <ℤ e → t <ℤ e)
    → ¬ (pos_part e + neg_part now ≡ pos_part now + neg_part e)
    → ◌≡◌ {A = Result Bool} (ok (in_term b e now)) (ok (in_term b e t))
steady now t b e le hb he ne = ap ok (ground arith)

module _ {Q : Type 0} (parse : String → Result Time) where
  -- Neither the begin nor the end of the override comes after `now` and up to `t`.
  abbrev pub NoEvent : Time → Time → TemporaryThresholdOverride Q → Type 0
  NoEvent now t o =
      (b : Time)
      → begin_time parse o ≡ ok b
      → (now <ℤ b → t <ℤ b) × ((e : Time) → end_time parse o ≡ ok e → now <ℤ e → t <ℤ e)

  Within-next_of_override :
      (now t : Time) (o : TemporaryThresholdOverride Q) (acc : Option Duration)
      → Within now t (next_of_override parse now o acc)
      → Within now t acc × NoEvent now t o
  unfolding next_of_override
  Within-next_of_override now t o acc = go (begin_time parse o) (end_time parse o)
    where
      go :
          (bt et : Result Time)
          → Within now t (elim bt [
            | err e ↦ acc
            | ok b ↦ elim et [
              | err e ↦ consider now b acc
              | ok e ↦ consider now e (consider now b acc)
            ]
          ])
          → Within now t acc
            × ((b : Time)
                → bt ≡ ok b
                → (now <ℤ b → t <ℤ b) × ((e : Time) → et ≡ ok e → now <ℤ e → t <ℤ e))
      go (err x) et w = (w, λ b h. absurd (cc))
      go (ok b) (err x) w =
          let r = Within-consider now t b acc w in
          (r.0, λ b' h. (ok-subst (λ c. now <ℤ c → t <ℤ c) h r.1, λ e k. absurd (cc)))
      go (ok b) (ok e) w =
          let r = Within-consider now t e (consider now b acc) w in
          let r' = Within-consider now t b acc r.0 in
          (
            r'.0,
            λ b' h. (
              ok-subst (λ c. now <ℤ c → t <ℤ c) h r'.1,
              λ e' k. ok-subst (λ c. now <ℤ c → t <ℤ c) k r.1,
            ),
          )

  next_loop-NoEvent :
      (now t : Time) (os : List (TemporaryThresholdOverride Q)) (acc : Option Duration)
      → Within now t (next_loop parse now os acc)
      → Within now t acc × All (NoEvent now t) os
  unfolding next_loop
  next_loop-NoEvent now t [] acc w = (w, tt)
  next_loop-NoEvent now t (o ∷ os) acc w =
      let r = next_loop-NoEvent now t os (next_of_override parse now o acc) w in
      let r' = Within-next_of_override now t o acc r.0 in (r'.0, (r'.1, r.1))

  -- The override does not end at this very instant.
  abbrev pub NoEndAt : Time → TemporaryThresholdOverride Q → Type 0
  NoEndAt now o = (e : Time) → end_time parse o ≡ ok e → ¬ (e ≡ now)

  is_active_steady :
      (now t : Time) (o : TemporaryThresholdOverride Q)
      → now ≤ℤ t
      → NoEvent now t o
      → NoEndAt now o
      → is_active parse o now ≡ is_active parse o t
  unfolding is_active
  is_active_steady now t o le n a = go (begin_time parse o) (end_time parse o) n a
    where
      active : Result Time → Result Time → Time → Result Bool
      active bt et u = do
        b ← bt
        e ← et
        ok ((ltb_ℤ b u || beq_ℤ b u) && (beq_ℤ e (pos 0) || (ltb_ℤ u e || beq_ℤ u e)))

      go :
          (bt et : Result Time)
          → ((b : Time)
              → bt ≡ ok b
              → (now <ℤ b → t <ℤ b) × ((e : Time) → et ≡ ok e → now <ℤ e → t <ℤ e))
          → ((e : Time) → et ≡ ok e → ¬ (e ≡ now))
          → active bt et now ≡ active bt et t
      go (err x) et n a = refl
      go (ok b) (err x) n a = refl
      go (ok b) (ok e) n a =
          steady now t b e le (n b refl).0 ((n b refl).1 e refl)
            (λ h. a e refl (eq_of_parts e now h))

  override_loop_steady :
      (now t : Time) (i : ℕ) (os : List (TemporaryThresholdOverride Q)) (s : Overriding Q)
      → now ≤ℤ t
      → All (NoEvent now t) os
      → All (NoEndAt now) os
      → override_loop parse now i os s ≡ override_loop parse t i os s
  unfolding override_loop override_round
  override_loop_steady now t i [] s le n a = refl
  override_loop_steady now t i (o ∷ os) s le n a =
      rw (is_active_steady now t o le n.0 a.0, override_round)
        (override_loop_steady now t (i + 1) os (override_round parse t i o s) le n.1 a.1)

  -- Until `NextOverrideHappensIn` has passed, the calculated threshold and its messages stay as
  -- they are, if no override ends at the present instant.
  pub threshold_steady :
      (b : ThrottleSpecBase Q) (now t : Time) (next : Option Duration)
      → next_override_happens_in parse b now ≡ ok next
      → now ≤ℤ t
      → Within now t next
      → All (NoEndAt now) b.temporary_threshold_overrides
      → ((calculate_threshold parse b t).threshold ≡ (calculate_threshold parse b now).threshold)
        × ((calculate_threshold parse b t).messages ≡ (calculate_threshold parse b now).messages)
  unfolding next_override_happens_in calculate_threshold
  threshold_steady b now t next h le w a =
      let os = b.temporary_threshold_overrides in
      let r = next_loop-NoEvent now t os none (ok-subst (Within now t) (sym h) w) in
      let same =
        override_loop_steady now t 0 os
          (record { active_found = false; override_result = no_amount; err_messages = [] }) le r.1
          a in
      (
        ap (λ (s : Overriding Q). if s.active_found then s.override_result else b.threshold)
            (sym same),
        ap (λ (s : Overriding Q). s.err_messages) (sym same),
      )
