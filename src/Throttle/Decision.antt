-- ===== src/Throttle/Decision.antt =====
-- When the two methods `CheckThrottledFor` let a pod through, in terms of the amounts.
use kube_throttler.Prelude.{
  string_eq, String, ◌≡◌, ◌≢◌, refl, sym, ◌∙◌, ap, subst, ◌↔◌, Bool, true, false, Option, some,
  arith, if◌then◌else◌, Bool-cases, inl, inr,
}
use kube_throttler.Prelude.Int.{ℤ, pos, ◌+ℤ◌, beq_ℤ, beq_ℤ_iff}
use kube_throttler.Prelude.GoMap.{get, IsMap}
use kube_throttler.Quantity.{Quantity}
use kube_throttler.Pod.{Pod}
use kube_throttler.ResourceList.Entries.{amount_of, join}
use kube_throttler.ResourceAmount.{
  ResourceAmount, IsResourceAmountThrottled, resource_amount_of_pod, is_throttled_for,
}
use kube_throttler.ResourceAmount.Throttled.{
  Fits, exceeded, count_of, NoneFlagged, any_throttled_sound, any_throttled_complete,
}
use kube_throttler.ResourceAmount.Amounts.{add64, request_of_pod-IsMap}
use kube_throttler.Throttle.{
  Throttle, ClusterThrottle, ThrottleSpecBase, ThrottleStatus, effective_threshold,
  check_throttled_for, cluster_check_throttled_for, not_throttled,
}
use kube_throttler.Throttle.Check.{
  Admissible, already_used, used_with, check_not_throttled_iff, cluster_check_not_throttled_iff,
}
use kube_throttler.Throttle.Within.{amount_of-used_with, count-used_with}
use kube_throttler.Throttle.Agreement.{amount_of-already_used, count-already_used}

module _ {Q : Type 0} where
  -- The threshold in force: that of the status once it has been calculated, and that of the
  -- specification before.
  pub data InForce (spec : ThrottleSpecBase Q) (status : ThrottleStatus Q)
      : ResourceAmount Q → Type 0 where
    calculated :
        status.calculated_threshold.calculated_at ≢ pos 0
        → InForce spec status status.calculated_threshold.threshold
    specified :
        status.calculated_threshold.calculated_at ≡ pos 0 → InForce spec status spec.threshold

  effective_threshold-InForce :
      (spec : ThrottleSpecBase Q) (status : ThrottleStatus Q) (threshold : ResourceAmount Q)
      → InForce spec status threshold
      → effective_threshold spec status ≡ threshold
  unfolding effective_threshold
  effective_threshold-InForce spec status _ (calculated set) =
      elim (Bool-cases (beq_ℤ status.calculated_threshold.calculated_at (pos 0))) [
        | inl zero_ ↦
            absurd (set ((beq_ℤ_iff status.calculated_threshold.calculated_at (pos 0)).0 zero_))
        | inr other ↦ rw (other) refl
      ]
  effective_threshold-InForce spec status _ (specified unset) =
      rw ((beq_ℤ_iff status.calculated_threshold.calculated_at (pos 0)).1 unset) refl

module _ {Q : Type 0} ⦃q : Quantity Q⦄ where
  -- A count of pods and amounts by name that exceed the threshold neither in the count nor in a
  -- resource that the pod asks for.
  abbrev pub Under : Bool → ResourceAmount Q → Pod Q → Option ℤ → (String → Option ℤ) → Type 0
  Under on_equal threshold pod count amount =
      (exceeded on_equal count (count_of threshold.resource_counts) ≡ false)
      × ((name : String) (x : Q)
          → get name (resource_amount_of_pod pod).resource_requests ≡ some x
          → q.is_zero x ≡ false
          → exceeded on_equal (amount name) (amount_of name threshold.resource_requests) ≡ false)

  -- What a name counts for in an amount.
  abbrev pub of_name : ResourceAmount Q → String → Option ℤ
  of_name ra name = amount_of name ra.resource_requests

  -- The pod is under the threshold alone; what is used and reserved is, without it and with it; and
  -- the status flags neither the pods nor a resource that the pod asks for. `at_once` is the flag of
  -- the check without the pod, `on_equal` of the check with it.
  pub record HasRoomFor (at_once on_equal : Bool) (threshold : ResourceAmount Q)
      (status : ThrottleStatus Q) (pod : Pod Q) (reserved : ResourceAmount Q) : Type 0 where
    pub alone : Under false threshold pod (some (pos 1)) (of_name (resource_amount_of_pod pod))
    pub count_open : status.throttled.resource_counts.pod ≡ false
    pub requests_open :
        NoneFlagged status.throttled.resource_requests
          (resource_amount_of_pod pod).resource_requests
    pub without :
        Under at_once threshold pod
          (join add64 (count_of status.used.resource_counts) (count_of reserved.resource_counts))
          (λ name. join ◌+ℤ◌ (of_name status.used name) (of_name reserved name))
    pub together :
        Under on_equal threshold pod
          (join add64
            (join add64 (count_of status.used.resource_counts) (some (pos 1)))
            (count_of reserved.resource_counts))
          (λ name.
            join ◌+ℤ◌
              (join ◌+ℤ◌ (of_name status.used name) (of_name (resource_amount_of_pod pod) name))
              (of_name reserved name))

  -- The flags of a status let a pod through where none of them concerns it.
  flags_iff :
      (flags : IsResourceAmountThrottled) (pod : Pod Q)
      → (is_throttled_for flags pod ≡ false) ↔ (
          (flags.resource_counts.pod ≡ false)
          × NoneFlagged flags.resource_requests (resource_amount_of_pod pod).resource_requests)
  unfolding is_throttled_for
  flags_iff flags pod = (
    λ h. (
      ground arith,
      any_throttled_sound flags.resource_requests (resource_amount_of_pod pod).resource_requests
          (ground arith),
    ),
    λ (count, none_).
        rw (count, if◌then◌else◌)
          (any_throttled_complete flags.resource_requests
            (resource_amount_of_pod pod).resource_requests (request_of_pod-IsMap pod) none_),
  )

  -- `Fits` says `Under` of an amount, whose count and requests may be given otherwise.
  Fits-Under :
      (on_equal : Bool) (threshold used : ResourceAmount Q) (pod : Pod Q) (count : Option ℤ)
      (amount : String → Option ℤ)
      → count_of used.resource_counts ≡ count
      → ((name : String) → of_name used name ≡ amount name)
      → Fits on_equal threshold used pod ↔ Under on_equal threshold pod count amount
  Fits-Under on_equal threshold used pod count amount c a = (
    λ f. (
      ap (λ o. exceeded on_equal o (count_of threshold.resource_counts)) (sym c) ∙ f.0,
      λ name x e z.
          ap (λ o. exceeded on_equal o (amount_of name threshold.resource_requests)) (sym (a name))
          ∙ f.1 name x e z,
    ),
    λ u. (
      ap (λ o. exceeded on_equal o (count_of threshold.resource_counts)) c ∙ u.0,
      λ name x e z.
          ap (λ o. exceeded on_equal o (amount_of name threshold.resource_requests)) (a name)
          ∙ u.1 name x e z,
    ),
  )

  module _ (at_once on_equal : Bool) (spec : ThrottleSpecBase Q) (status : ThrottleStatus Q)
      (pod : Pod Q) (reserved : ResourceAmount Q) (u : IsMap status.used.resource_requests)
      (r : IsMap reserved.resource_requests) where
    abbrev t : ResourceAmount Q
    t = effective_threshold spec status

    alone_iff :
        Fits false t (resource_amount_of_pod pod) pod
        ↔ Under false t pod (some (pos 1)) (of_name (resource_amount_of_pod pod))
    alone_iff =
        Fits-Under false t (resource_amount_of_pod pod) pod (some (pos 1))
          (of_name (resource_amount_of_pod pod)) (unfold resource_amount_of_pod in refl)
          (λ name. refl)

    without_iff :
        Fits at_once t (already_used status reserved) pod
        ↔ Under at_once t pod
            (join add64 (count_of status.used.resource_counts) (count_of reserved.resource_counts))
            (λ name. join ◌+ℤ◌ (of_name status.used name) (of_name reserved name))
    without_iff =
        Fits-Under at_once t (already_used status reserved) pod _ _
          (count-already_used status reserved)
          (λ name. amount_of-already_used status reserved name u r)

    together_iff :
        Fits on_equal t (used_with status pod reserved) pod
        ↔ Under on_equal t pod
            (join add64
              (join add64 (count_of status.used.resource_counts) (some (pos 1)))
              (count_of reserved.resource_counts))
            (λ name.
              join ◌+ℤ◌
                (join ◌+ℤ◌ (of_name status.used name) (of_name (resource_amount_of_pod pod) name))
                (of_name reserved name))
    together_iff =
        Fits-Under on_equal t (used_with status pod reserved) pod _ _
          (count-used_with status pod reserved)
          (λ name. amount_of-used_with status pod reserved name u r)

    Admissible-HasRoomFor :
        Admissible at_once on_equal spec status pod reserved
        ↔ HasRoomFor at_once on_equal t status pod reserved
    Admissible-HasRoomFor = (
      λ h. record {
        alone = alone_iff.0 h.alone;
        count_open = ((flags_iff status.throttled pod).0 h.open_status).0;
        requests_open = ((flags_iff status.throttled pod).0 h.open_status).1;
        without = without_iff.0 h.room;
        together = together_iff.0 h.fits;
      },
      λ h. record {
        alone = alone_iff.1 h.alone;
        open_status = (flags_iff status.throttled pod).1 (h.count_open, h.requests_open);
        room = without_iff.1 h.without;
        fits = together_iff.1 h.together;
      },
    )

module _ {Q L : Type 0} ⦃q : Quantity Q⦄ (thr : Throttle Q L) (pod : Pod Q)
    (reserved threshold : ResourceAmount Q) (on_equal : Bool)
    (in_force : InForce thr.spec.base thr.status threshold)
    (threshold-IsMap : IsMap threshold.resource_requests)
    (used-IsMap : IsMap thr.status.used.resource_requests)
    (reserved-IsMap : IsMap reserved.resource_requests) where
  -- A `Throttle` lets a pod through exactly when it has room for it: in each of the three sums, of
  -- the pod alone, of what is used and reserved, and of all of it together, no more pods than the
  -- threshold in force has as its count and no more of each resource that the pod asks for, and no
  -- flag in the status that concerns the pod. In the second sum, and in the third where the flag of
  -- the call is set, an equal sum is too much. The pod counts wrap around at 64 bits. The amounts of
  -- the threshold, the use and the reservation are maps.
  pub lets_through_iff :
      (check_throttled_for thr pod reserved on_equal ≡ not_throttled)
      ↔ HasRoomFor true on_equal threshold thr.status pod reserved
  lets_through_iff =
      let e = effective_threshold-InForce thr.spec.base thr.status threshold in_force in
      let check =
        check_not_throttled_iff thr pod reserved on_equal
          (subst (λ (t : ResourceAmount Q). IsMap t.resource_requests) (sym e) threshold-IsMap) in
      let room =
        Admissible-HasRoomFor true on_equal thr.spec.base thr.status pod reserved used-IsMap
          reserved-IsMap in
      (
        λ h. subst (λ t. HasRoomFor true on_equal t thr.status pod reserved) e (room.0 (check.0 h)),
        λ h.
            check.1
              (room.1 (subst (λ t. HasRoomFor true on_equal t thr.status pod reserved) (sym e) h)),
      )

module _ {Q L : Type 0} ⦃q : Quantity Q⦄ (thr : ClusterThrottle Q L) (pod : Pod Q)
    (reserved threshold : ResourceAmount Q) (on_equal : Bool)
    (in_force : InForce thr.spec.base thr.status threshold)
    (threshold-IsMap : IsMap threshold.resource_requests)
    (used-IsMap : IsMap thr.status.used.resource_requests)
    (reserved-IsMap : IsMap reserved.resource_requests) where
  -- A `ClusterThrottle` lets a pod through exactly when it has room for it, where the flag of the
  -- call also rules the check without the pod: in each of the three sums, of the pod alone, of what
  -- is used and reserved, and of all of it together, no more pods than the threshold in force has
  -- as its count and no more of each resource that the pod asks for, and no flag in the status that
  -- concerns the pod; a sum that is equal is too much where the check has its flag set. The pod
  -- counts wrap around at 64 bits. The amounts of the threshold, the use and the reservation are
  -- maps.
  pub cluster_lets_through_iff :
      (cluster_check_throttled_for thr pod reserved on_equal ≡ not_throttled)
      ↔ HasRoomFor on_equal on_equal threshold thr.status pod reserved
  cluster_lets_through_iff =
      let e = effective_threshold-InForce thr.spec.base thr.status threshold in_force in
      let check =
        cluster_check_not_throttled_iff thr pod reserved on_equal
          (subst (λ (t : ResourceAmount Q). IsMap t.resource_requests) (sym e) threshold-IsMap) in
      let room =
        Admissible-HasRoomFor on_equal on_equal thr.spec.base thr.status pod reserved used-IsMap
          reserved-IsMap in
      (
        λ h.
            subst (λ t. HasRoomFor on_equal on_equal t thr.status pod reserved) e
              (room.0 (check.0 h)),
        λ h. check.1 (
            room.1 (subst (λ t. HasRoomFor on_equal on_equal t thr.status pod reserved) (sym e) h)),
      )
