-- ===== src/ResourceList/Compare.antt =====
-- What `GreaterOrEqual` and `EqualTo` of resourcelist.go decide.
use kube_throttler.Prelude.{
  string_eq, eq_self, String, ◌≡◌, refl, sym, ap, subst, ◌∙◌, ◌↔◌, inl, inr, true, Option, none,
  some, [], ◌∷◌, arith, get_or, Option-cases,
}
use kube_throttler.Prelude.Int.{ℤ, ◌≤ℤ◌, eq_of_parts}
use kube_throttler.Prelude.GoMap.{get, IsMap, get-cons, get-cons_inv}
use kube_throttler.Quantity.{Quantity}
use kube_throttler.Pod.{ResourceList}
use kube_throttler.ResourceList.{read, greater_or_equal, covered_by, equal_to}

module _ {Q : Type 0} ⦃q : Quantity Q⦄ where
  -- The amount that a list gives for a name, a missing one read as the zero quantity.
  abbrev pub amount_at : String → ResourceList Q → ℤ
  amount_at name m = q.amount (read name m)

  amount_at-of_get :
      (name : String) (m : ResourceList Q) {o : Option Q}
      → get name m ≡ o
      → amount_at name m ≡ q.amount (get_or q.zero_quantity o)
  amount_at-of_get name m e = ap (λ o. q.amount (get_or q.zero_quantity o)) e

  -- Every name of `rhs` stands in `lhs`, with at least as much.
  abbrev pub Covers : ResourceList Q → ResourceList Q → Type 0
  Covers lhs rhs =
      (name : String) (x : Q)
      → get name rhs ≡ some x
      → (y : Q) × (get name lhs ≡ some y) × (q.amount x ≤ℤ q.amount y)

  greater_or_equal_sound :
      (lhs rhs : ResourceList Q) → greater_or_equal lhs rhs ≡ true → Covers lhs rhs
  unfolding greater_or_equal
  greater_or_equal_sound lhs [] h name x e = absurd (unfold get in cc)
  greater_or_equal_sound lhs ((n, w) ∷ rhs) h name x e = elim (Option-cases (get n lhs)) [
    | inl missing ↦ absurd (ground arith)
    | inr (y, found) ↦ elim (get-cons_inv n name w rhs e) [
      | inl (here, same) ↦ (
        y,
        subst (λ k. get k lhs ≡ some y) here found,
        subst (λ v. q.amount v ≤ℤ q.amount y) same (ground (arith, q.cmp_lem y w)),
      )
      | inr later ↦ greater_or_equal_sound lhs rhs (ground (arith, q.cmp_lem y w)) name x later
    ]
  ]

  Covers-tail :
      (lhs : ResourceList Q) (n : String) (w : Q) (rhs : ResourceList Q)
      → get n rhs ≡ none
      → Covers lhs ((n, w) ∷ rhs)
      → Covers lhs rhs
  unfolding get
  Covers-tail lhs n w rhs d h name x e = h name x (ground (arith, string_eq.beq_iff n name))

  greater_or_equal_complete :
      (lhs rhs : ResourceList Q) → IsMap rhs → Covers lhs rhs → greater_or_equal lhs rhs ≡ true
  unfolding greater_or_equal get
  greater_or_equal_complete lhs [] d h = refl
  greater_or_equal_complete lhs ((n, w) ∷ rhs) d h =
      let (y, e, le) = h n w (rw (eq_self n) refl) in
      rw (e, greater_or_equal) ground
        (
          arith,
          q.cmp_lem y w,
          greater_or_equal_complete lhs rhs d.1 (Covers-tail lhs n w rhs d.0 h),
        )

  -- `GreaterOrEqual` holds exactly when every name of `rhs` stands in `lhs` with at least as much,
  -- if `rhs` is a map.
  pub greater_or_equal_iff :
      (lhs rhs : ResourceList Q) → IsMap rhs → (greater_or_equal lhs rhs ≡ true) ↔ Covers lhs rhs
  greater_or_equal_iff lhs rhs d =
      (greater_or_equal_sound lhs rhs, greater_or_equal_complete lhs rhs d)

  -- The names of `r1` read alike in both.
  abbrev AgreesOn : ResourceList Q → ResourceList Q → Type 0
  AgreesOn r1 r2 = (name : String) (x : Q) → get name r1 ≡ some x → q.amount x ≡ amount_at name r2

  covered_by_sound : (r1 r2 : ResourceList Q) → covered_by r1 r2 ≡ true → AgreesOn r1 r2
  unfolding covered_by get
  covered_by_sound [] r2 h name x e = cc
  covered_by_sound ((n, w) ∷ r1) r2 h name x e = ground (
    arith,
    q.cmp_lem w (read n r2),
    eq_of_parts (q.amount w) (amount_at n r2),
    string_eq.beq_iff n name,
    get-cons n name w r1,
    covered_by_sound r1 r2 (ground (arith, q.cmp_lem w (read n r2))) name x,
  )

  covered_by_complete :
      (r1 r2 : ResourceList Q) → IsMap r1 → AgreesOn r1 r2 → covered_by r1 r2 ≡ true
  unfolding covered_by get
  covered_by_complete [] r2 d h = refl
  covered_by_complete ((n, w) ∷ r1) r2 d h = ground (
    arith,
    q.cmp_lem w (read n r2),
    h n w (rw (eq_self n) refl),
    covered_by_complete r1 r2 d.1
        (λ name x e. h name x (ground (arith, get-cons n name w r1, string_eq.beq_iff n name))),
  )

  agree :
      (r1 r2 : ResourceList Q)
      → AgreesOn r1 r2
      → AgreesOn r2 r1
      → (name : String) → amount_at name r1 ≡ amount_at name r2
  agree r1 r2 f g name = elim (Option-cases (get name r1)) [
    | inr (x, e) ↦ amount_at-of_get name r1 e ∙ f name x e
    | inl e ↦ elim (Option-cases (get name r2)) [
      | inr (y, e') ↦ sym (amount_at-of_get name r2 e' ∙ g name y e')
      | inl e' ↦ amount_at-of_get name r1 e ∙ sym (amount_at-of_get name r2 e')
    ]
  ]

  -- `EqualTo` holds exactly when every name has the same amount in both, a missing one being
  -- zero, if both are maps.
  pub equal_to_iff :
      (lhs rhs : ResourceList Q)
      → IsMap lhs
      → IsMap rhs
      → (equal_to lhs rhs ≡ true) ↔ ((name : String) → amount_at name lhs ≡ amount_at name rhs)
  unfolding equal_to
  equal_to_iff lhs rhs c d = (
    λ h.
        agree lhs rhs (covered_by_sound lhs rhs (ground arith))
          (covered_by_sound rhs lhs (ground arith)),
    λ h. ground (
      arith,
      covered_by_complete lhs rhs c (λ name x e. sym (amount_at-of_get name lhs e) ∙ h name),
      covered_by_complete rhs lhs d (λ name x e. sym (amount_at-of_get name rhs e) ∙ sym (h name)),
    ),
  )
