-- ===== src/ThrottleSpec/Merge.antt =====
-- What `CalculateThreshold` of throttle_types.go calculates.
use kube_throttler.Prelude.{
  string_eq, ℕ, ◌+◌, String, ◌≡◌, refl, sym, ◌∙◌, ap, ◌≢◌, Bool, true, false, ◌||◌, Option, none,
  some, List, [], ◌∷◌, ◌++◌, arith, if◌then◌else◌,
}
use mathlib.Core.List.{append_assoc, append-nil}
use kube_throttler.Prelude.GoMap.{get, put, has, IsMap, get-put, get-for_range, after_entry}
use kube_throttler.Prelude.Lists.{All}
use kube_throttler.Errors.{Error, at_index, Result, ok, err}
use kube_throttler.Pod.{ResourceList}
use kube_throttler.ResourceAmount.{ResourceCounts, no_amount}
use kube_throttler.Throttle.{Time, TemporaryThresholdOverride, ThrottleSpecBase}
use kube_throttler.ThrottleSpec.{
  is_active, first_counts, merge_requests, use_override, Overriding, override_round, override_loop,
  calculate_threshold,
}

-- The first of two, where there is one.
abbrev pub first {ℓ} : {A : Type ℓ} → Option A → Option A → Option A
first none b = b
first (some a) b = some a

module _ {Q : Type 0} where
  abbrev keep : String → Option Q → Q → Option Q
  keep k o w = first o (some w)

  keep-first : (name : String) (a b : Option Q) → after_entry keep name a b ≡ first a b
  keep-first name none none = refl
  keep-first name none (some b) = refl
  keep-first name (some a) none = refl
  keep-first name (some a) (some b) = refl

  get-merge_requests :
      (merged requests : ResourceList Q) (name : String)
      → IsMap requests
      → get name (merge_requests merged requests) ≡ first (get name merged) (get name requests)
  unfolding merge_requests
  get-merge_requests merged requests name d =
      get-for_range requests (λ rn rq m. if has rn m then m else put rn rq m) keep
        (λ k w m j. ground (arith, get-put k j w m, string_eq.beq_iff k j)) d merged name
      ∙ keep-first name (get name merged) (get name requests)

module _ {Q : Type 0} (parse : String → Result Time) (now : Time) where
  -- The overrides that are active, in their order.
  abbrev pub actives : List (TemporaryThresholdOverride Q) → List (TemporaryThresholdOverride Q)
  actives [] = []
  actives (o ∷ os) = elim (is_active parse o now) [
    | err e ↦ actives os
    | ok active ↦ if active then o ∷ actives os else actives os
  ]

  -- The errors of the overrides that cannot be read, each with its place.
  abbrev pub unreadable : ℕ → List (TemporaryThresholdOverride Q) → List Error
  unreadable i [] = []
  unreadable i (o ∷ os) = elim (is_active parse o now) [
    | err e ↦ at_index i e ∷ unreadable (i + 1) os
    | ok active ↦ unreadable (i + 1) os
  ]

-- The first count, and the first request of a name, that a row of overrides sets.
abbrev pub first_count_of :
    {Q : Type 0} → List (TemporaryThresholdOverride Q) → Option ResourceCounts
first_count_of [] = none
first_count_of (o ∷ os) = first o.threshold.resource_counts (first_count_of os)

abbrev pub first_request_of : {Q : Type 0} → String → List (TemporaryThresholdOverride Q) → Option Q
first_request_of name [] = none
first_request_of name (o ∷ os) =
    first (get name o.threshold.resource_requests) (first_request_of name os)

first_assoc {ℓ} : {A : Type ℓ} (a b c : Option A) → first (first a b) c ≡ first a (first b c)
first_assoc none b c = refl
first_assoc (some a) b c = refl

first-none {ℓ} : {A : Type ℓ} (a : Option A) → first a none ≡ a
first-none none = refl
first-none (some a) = refl

first_counts_lem : (a b : Option ResourceCounts) → first_counts a b ≡ first a b
first_counts_lem none b = refl
first_counts_lem (some a) b = refl

abbrev is_cons : {A : Type 0} → List A → Bool
is_cons [] = false
is_cons (x ∷ xs) = true

is_cons_lem : {A : Type 0} (l : List A) → l ≢ [] → is_cons l ≡ true
is_cons_lem [] ne = absurd (ne refl)
is_cons_lem (x ∷ l) ne = refl

module _ {Q : Type 0} (parse : String → Result Time) (now : Time) where
  -- What the loop makes of the state that it starts from.
  record Merged (os : List (TemporaryThresholdOverride Q)) (i : ℕ) (s s' : Overriding Q)
      : Type 0 where
    found : s'.active_found ≡ (s.active_found || is_cons (actives parse now os))
    counts :
        s'.override_result.resource_counts
        ≡ first s.override_result.resource_counts (first_count_of (actives parse now os))
    requests :
        (name : String)
        → get name s'.override_result.resource_requests
          ≡ first
              (get name s.override_result.resource_requests)
              (first_request_of name (actives parse now os))
    messages : s'.err_messages ≡ s.err_messages ++ unreadable parse now i os

  abbrev pub AreMaps : List (TemporaryThresholdOverride Q) → Type 0
  AreMaps = All (λ o. IsMap o.threshold.resource_requests)

  Merged-round :
      (o : TemporaryThresholdOverride Q) (os : List (TemporaryThresholdOverride Q)) (i : ℕ)
      (s s' : Overriding Q) (r : Result Bool)
      → IsMap o.threshold.resource_requests
      → is_active parse o now ≡ r
      → Merged os (i + 1) (use_override i o r s) s'
      → Merged (o ∷ os) i s s'
  Merged-round o os i s s' (err x) d e h = record {
    found = rw (e, actives) h.found;
    counts = rw (e, actives) h.counts;
    requests = λ name. rw (e, actives) (h.requests name);
    messages =
        rw (e, unreadable)
          (h.messages
            ∙ append_assoc s.err_messages (at_index i x ∷ []) (unreadable parse now (i + 1) os));
  }
  Merged-round o os i s s' (ok false) d e h = record {
    found = rw (e, actives) h.found;
    counts = rw (e, actives) h.counts;
    requests = λ name. rw (e, actives) (h.requests name);
    messages = rw (e, unreadable) h.messages;
  }
  Merged-round o os i s s' (ok true) d e h = record {
    found = rw (e, actives) (ground (arith, h.found));
    counts =
        rw (e, actives)
          (h.counts
            ∙ ap (λ a. first a (first_count_of (actives parse now os)))
                (first_counts_lem s.override_result.resource_counts o.threshold.resource_counts)
            ∙ first_assoc s.override_result.resource_counts o.threshold.resource_counts
                (first_count_of (actives parse now os)));
    requests = λ name.
        rw (e, actives)
          (h.requests name
            ∙ ap (λ a. first a (first_request_of name (actives parse now os)))
                (get-merge_requests s.override_result.resource_requests
                  o.threshold.resource_requests name d)
            ∙ first_assoc (get name s.override_result.resource_requests)
                (get name o.threshold.resource_requests)
                (first_request_of name (actives parse now os)));
    messages = rw (e, unreadable) h.messages;
  }

  Merged-loop :
      (os : List (TemporaryThresholdOverride Q)) (i : ℕ) (s : Overriding Q)
      → AreMaps os
      → Merged os i s (override_loop parse now i os s)
  unfolding override_loop override_round
  Merged-loop [] i s d = record {
    found = ground arith;
    counts = sym (first-none s.override_result.resource_counts);
    requests = λ name. sym (first-none (get name s.override_result.resource_requests));
    messages = sym (append-nil s.err_messages);
  }
  Merged-loop (o ∷ os) i s d =
      Merged-round o os i s _ (is_active parse o now) d.0 refl
        (Merged-loop os (i + 1) (use_override i o (is_active parse o now) s) d.1)

  abbrev start : Overriding Q
  start = record { active_found = false; override_result = no_amount; err_messages = [] }

  -- With no active override, the calculated threshold is the specified one, and the messages are
  -- the errors of the overrides that cannot be read, in order, with their places. The requests of
  -- every override are a map.
  pub calculate_threshold-none :
      (b : ThrottleSpecBase Q)
      → AreMaps b.temporary_threshold_overrides
      → actives parse now b.temporary_threshold_overrides ≡ []
      → ((calculate_threshold parse b now).threshold ≡ b.threshold)
        × ((calculate_threshold parse b now).messages
            ≡ unreadable parse now 0 b.temporary_threshold_overrides)
  unfolding calculate_threshold get
  calculate_threshold-none b d e =
      let m = Merged-loop b.temporary_threshold_overrides 0 start d in
      (rw (m.found ∙ ap is_cons e, if◌then◌else◌) refl, m.messages)

  -- With an active override, the calculated threshold holds what the active overrides set and
  -- nothing else: the count, and each request, of the first of them that has one. The messages are
  -- the errors of the overrides that cannot be read, in order, with their places. The requests of
  -- every override are a map.
  pub calculate_threshold-merged :
      (b : ThrottleSpecBase Q) (name : String)
      → AreMaps b.temporary_threshold_overrides
      → actives parse now b.temporary_threshold_overrides ≢ []
      → ((calculate_threshold parse b now).threshold.resource_counts
          ≡ first_count_of (actives parse now b.temporary_threshold_overrides))
        × (get name (calculate_threshold parse b now).threshold.resource_requests
            ≡ first_request_of name (actives parse now b.temporary_threshold_overrides))
        × ((calculate_threshold parse b now).messages
            ≡ unreadable parse now 0 b.temporary_threshold_overrides)
  unfolding calculate_threshold get
  calculate_threshold-merged b name d ne =
      let os = b.temporary_threshold_overrides in
      let m = Merged-loop os 0 start d in
      let found : (override_loop parse now 0 os start).active_found ≡ true =
        m.found ∙ is_cons_lem (actives parse now os) ne in
      (rw (found, if◌then◌else◌) m.counts, rw (found, if◌then◌else◌) (m.requests name), m.messages)
