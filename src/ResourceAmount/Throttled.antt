-- ===== src/ResourceAmount/Throttled.antt =====
-- What `IsThrottled` and `IsThrottledFor` decide, in terms of the amounts.
use kube_throttler.Prelude.{
  string_eq, eq_self, String, ◌≡◌, refl, sym, ap, subst, ◌∙◌, ◌↔◌, inl, inr, Bool, true, false,
  Option, none, some, [], ◌∷◌, arith, get_or, if◌then◌else◌, Bool-cases,
}
use kube_throttler.Prelude.Int.{ℤ, ltb_ℤ, leb_ℤ}
use kube_throttler.Prelude.GoMap.{
  GoMap, get, put, IsMap, after_entry, get-put, get-for_range, get-cons, get-cons_inv,
}
use kube_throttler.Quantity.{Quantity}
use kube_throttler.Pod.{Pod, ResourceList}
use kube_throttler.ResourceList.Entries.{amount_of, amount_of?}
use kube_throttler.ResourceList.PodRequest.{pod_request-IsMap}
use kube_throttler.ResourceAmount.{
  ResourceAmount, ResourceCounts, is_throttled, is_throttled_for, any_throttled, request_throttled,
  pod_count_throttled, resource_amount_of_pod,
}

-- Use is above a threshold, or on it where that counts; never where one of the two is missing.
abbrev pub exceeded : Bool → Option ℤ → Option ℤ → Bool
exceeded on_equal (some used) (some threshold) =
    if on_equal then leb_ℤ threshold used else ltb_ℤ threshold used
exceeded on_equal (some used) none = false
exceeded on_equal none threshold = false

pub exceeded-none : (on_equal : Bool) (used : Option ℤ) → exceeded on_equal used none ≡ false
exceeded-none on_equal none = refl
exceeded-none on_equal (some u) = refl

abbrev pub count_of : Option ResourceCounts → Option ℤ
count_of none = none
count_of (some c) = some c.pod

pub count_exceeded :
    (on_equal : Bool) (threshold used : Option ResourceCounts)
    → pod_count_throttled on_equal threshold used
      ≡ exceeded on_equal (count_of used) (count_of threshold)
unfolding pod_count_throttled
count_exceeded on_equal (some t) (some u) = refl
count_exceeded on_equal (some t) none = refl
count_exceeded on_equal none (some u) = refl
count_exceeded on_equal none none = refl

-- The flag that a name has, false for a name that has none.
abbrev pub flag_at : String → GoMap String Bool → Bool
flag_at name flags = get_or false (get name flags)

module _ {Q : Type 0} ⦃q : Quantity Q⦄ where
  request_exceeded :
      (on_equal : Bool) (used : Option Q) (t : Q)
      → request_throttled on_equal used t ≡ exceeded on_equal (amount_of? used) (some (q.amount t))
  unfolding request_throttled
  request_exceeded true none t = refl
  request_exceeded false none t = refl
  request_exceeded true (some u) t = ground (arith, q.cmp_lem u t)
  request_exceeded false (some u) t = ground (arith, q.cmp_lem u t)

  -- `IsThrottled` flags a name exactly when the threshold and the use both have it and the use
  -- exceeds the threshold. The requests of the threshold are a map.
  pub flag-is_throttled :
      (threshold used : ResourceAmount Q) (on_equal : Bool) (name : String)
      → IsMap threshold.resource_requests
      → flag_at name (is_throttled threshold used on_equal).resource_requests
        ≡ exceeded on_equal
            (amount_of name used.resource_requests)
            (amount_of name threshold.resource_requests)
  unfolding is_throttled get
  flag-is_throttled threshold used on_equal name d =
      ap (get_or false) (
        get-for_range threshold.resource_requests
          (λ rn qt flags.
            put rn (request_throttled on_equal (get rn used.resource_requests) qt) flags)
          flagged (λ k w m j. get-put k j _ m) d [] name)
      ∙ cases (get name threshold.resource_requests)
    where
      flagged : String → Option Bool → Q → Option Bool
      flagged rn _ qt = some (request_throttled on_equal (get rn used.resource_requests) qt)

      cases :
          (t : Option Q)
          → get_or false (after_entry flagged name (get name []) t)
            ≡ exceeded on_equal (amount_of name used.resource_requests) (amount_of? t)
      cases none = sym (exceeded-none on_equal (amount_of name used.resource_requests))
      cases (some t) = request_exceeded on_equal (get name used.resource_requests) t

  -- No resource that `requests` asks for is flagged.
  abbrev pub NoneFlagged : GoMap String Bool → ResourceList Q → Type 0
  NoneFlagged flags requests =
      (name : String) (x : Q)
      → get name requests ≡ some x
      → q.is_zero x ≡ false
      → flag_at name flags ≡ false

  pub any_throttled_sound :
      (flags : GoMap String Bool) (requests : ResourceList Q)
      → any_throttled flags requests ≡ false
      → NoneFlagged flags requests
  unfolding any_throttled
  any_throttled_sound flags [] h name x e z = absurd (unfold get in cc)
  any_throttled_sound flags ((n, w) ∷ requests) h name x e z =
      elim (get-cons_inv n name w requests e) [
        | inl (here, same) ↦
            subst (λ k. flag_at k flags ≡ false) here
              (ground (arith, subst (λ y. q.is_zero y ≡ false) (sym same) z))
        | inr later ↦ any_throttled_sound flags requests (ground arith) name x later z
      ]

  pub any_throttled_complete :
      (flags : GoMap String Bool) (requests : ResourceList Q)
      → IsMap requests
      → NoneFlagged flags requests
      → any_throttled flags requests ≡ false
  unfolding any_throttled
  any_throttled_complete flags [] d h = refl
  any_throttled_complete flags ((n, w) ∷ requests) d h = ground (
    arith,
    h n w (get-cons n n w requests ∙ rw (eq_self n) refl),
    any_throttled_complete flags requests d.1 (λ name x e.
        h name x (ground (arith, get-cons n name w requests, string_eq.beq_iff n name))),
  )

  -- No resource that the pod asks for is over its threshold.
  abbrev pub RequestsFit : Bool → ResourceAmount Q → ResourceAmount Q → Pod Q → Type 0
  RequestsFit on_equal threshold used pod =
      (name : String) (x : Q)
      → get name (resource_amount_of_pod pod).resource_requests ≡ some x
      → q.is_zero x ≡ false
      → exceeded on_equal (amount_of name used.resource_requests)
          (amount_of name threshold.resource_requests)
        ≡ false

  -- Neither is the number of pods.
  abbrev pub Fits : Bool → ResourceAmount Q → ResourceAmount Q → Pod Q → Type 0
  Fits on_equal threshold used pod =
      (exceeded on_equal (count_of used.resource_counts) (count_of threshold.resource_counts)
        ≡ false)
      × RequestsFit on_equal threshold used pod

  module _ (threshold used : ResourceAmount Q) (on_equal : Bool) (pod : Pod Q)
      (d : IsMap threshold.resource_requests) where
    Fits-sound :
        is_throttled_for (is_throttled threshold used on_equal) pod ≡ false
        → Fits on_equal threshold used pod
    unfolding is_throttled_for
    Fits-sound h = elim (Bool-cases (is_throttled threshold used on_equal).resource_counts.pod) [
      | inl yes' ↦ absurd (ground arith)
      | inr no' ↦ (
        sym (count_exceeded on_equal threshold.resource_counts used.resource_counts)
            ∙ unfold is_throttled in no',
        λ name x e z.
            sym (flag-is_throttled threshold used on_equal name d)
            ∙ any_throttled_sound (is_throttled threshold used on_equal).resource_requests
                (resource_amount_of_pod pod).resource_requests (ground arith) name x e z,
      )
    ]

    Fits-complete :
        Fits on_equal threshold used pod
        → is_throttled_for (is_throttled threshold used on_equal) pod ≡ false
    unfolding is_throttled_for
    Fits-complete h =
        let requests = (resource_amount_of_pod pod).resource_requests in
        let flags = (is_throttled threshold used on_equal).resource_requests in
        let asked : IsMap requests = unfold resource_amount_of_pod in pod_request-IsMap pod in
        let quiet : (is_throttled threshold used on_equal).resource_counts.pod ≡ false =
          unfold is_throttled in
          count_exceeded on_equal threshold.resource_counts used.resource_counts ∙ h.0 in
        rw (quiet, if◌then◌else◌)
          (any_throttled_complete flags requests asked
            (λ name x e z. flag-is_throttled threshold used on_equal name d ∙ h.1 name x e z))

    -- A pod is not throttled exactly when the number of pods fits the threshold, and so does every
    -- resource that the pod asks for. The requests of the threshold are a map.
    pub not_throttled_iff :
        (is_throttled_for (is_throttled threshold used on_equal) pod ≡ false)
        ↔ Fits on_equal threshold used pod
    not_throttled_iff = (Fits-sound, Fits-complete)
