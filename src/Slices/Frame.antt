-- ===== src/Slices/Frame.antt =====
-- What `append` leaves alone, and what it may overwrite.
use kube_throttler.Prelude.{
  ℕ, zero, suc, ◌+◌, ◌≤◌, ◌<◌, ◌≡◌, refl, sym, ◌∙◌, ap, subst, ◌&&◌, Bool, some, List, [], ◌∷◌,
  ◌++◌, arith, ltb, nat_beq, Bool-cases, inl, inr,
}
use kube_throttler.Prelude.Lists.{
  length, In, get_elem?, get_elem?-In, get_elem?-append, get_elem?-append_end, length-append,
}
use kube_throttler.Slices.{Slice, Heap, append, elements, contents}

module _ {A : Type 0} where
  -- The slice holds just these elements, in an array that is there.
  pub record Holds (h : Heap A) (s : Slice) (xs : List A) : Type 0 where
    pub size : s.len ≡ length xs
    pub there : s.address < h.next
    pub cells : (i : ℕ) → i < s.len → h.cell s.address i ≡ get_elem? xs i

  -- Every element of the slice has the property.
  pub record Each (P : A → Type 0) (h : Heap A) (s : Slice) : Type 0 where
    pub there : s.address < h.next
    pub cells : (i : ℕ) → i < s.len → (x : A) × (h.cell s.address i ≡ some x) × P x

  module _ (grow : ℕ → ℕ) (s : Slice) (x : A) (h : Heap A) where
    pub append-Holds :
        (xs : List A)
        → Holds h s xs
        → Holds (append grow s x h).1 (append grow s x h).0 (xs ++ x ∷ [])
    unfolding append
    append-Holds xs v = record {
      size = ground (arith, length-append xs (x ∷ []));
      there = ground arith;
      cells = λ i l.
          ground (arith, v.cells i, get_elem?-append xs (x ∷ []) i, get_elem?-append_end xs x i);
    }

    -- A slice that lies below the cell that is written keeps its elements.
    pub append-frame :
        (t : Slice) (ys : List A)
        → t.address < h.next
        → (t.address ≡ s.address → t.len ≤ s.len)
        → Holds h t ys
        → Holds (append grow s x h).1 t ys
    unfolding append
    append-frame t ys lt below v = record {
      size = v.size;
      there = ground arith;
      cells = λ i l. ground (arith, v.cells i l);
    }

    abbrev hits : Slice → ℕ → Bool
    hits t i = nat_beq t.address s.address && nat_beq i s.len

    -- What a slice holds afterwards it held before, or it is what was written.
    pub append-Each :
        (P : A → Type 0) (t : Slice) → P x → Each P h t → Each P (append grow s x h).1 t
    unfolding append
    append-Each P t p v = record {
      there = ground (arith, v.there);
      cells = λ i l.
          let (y, e, py) = v.cells i l in
          elim (Bool-cases (ltb s.len (h.capacity s.address) && hits t i)) [
            | inl hit ↦ (x, ground arith, p)
            | inr miss ↦ (y, ground (arith, v.there), py)
          ];
    }

    pub append-Each_self :
        (P : A → Type 0) → P x → Each P h s → Each P (append grow s x h).1 (append grow s x h).0
    unfolding append
    append-Each_self P p v = record {
      there = ground (arith, v.there);
      cells = λ i l. elim (Bool-cases (ltb i s.len)) [
        | inl old ↦ let (y, e, py) = v.cells i (ground arith) in (y, ground (arith, v.there), py)
        | inr new ↦ (x, ground arith, p)
      ];
    }

  pub Holds-Each :
      (P : A → Type 0) (h : Heap A) (s : Slice) (xs : List A)
      → Holds h s xs
      → ((x : A) → In x xs → P x)
      → Each P h s
  Holds-Each P h s xs v all = record {
    there = v.there;
    cells = λ i l.
        let (y, e, m) = get_elem?-In xs i (omega (arith, v.size)) in (y, v.cells i l ∙ e, all y m);
  }

  elements-Holds :
      (h : Heap A) (a : ℕ) (xs : List A) (k : ℕ)
      → ((i : ℕ) → i < length xs → h.cell a (k + i) ≡ get_elem? xs i)
      → elements h a k (length xs) ≡ xs
  unfolding elements
  elements-Holds h a [] k c = refl
  elements-Holds h a (x ∷ xs) k c =
      let first : h.cell a k ≡ some x = ap (h.cell a) (omega arith) ∙ c 0 (omega arith) in
      rw (first, elements)
        (ap (◌∷◌ x) (
          elements-Holds h a xs (k + 1)
            (λ i l. ap (h.cell a) (omega arith) ∙ c (suc i) (omega arith))))

  -- The contents of a slice are the elements that it holds.
  pub contents-Holds : (h : Heap A) (s : Slice) (xs : List A) → Holds h s xs → contents h s ≡ xs
  contents-Holds h s xs v =
      ap (elements h s.address 0) v.size
      ∙ elements-Holds h s.address xs 0
          (λ i l. ap (h.cell s.address) (omega arith) ∙ v.cells i (omega (arith, v.size)))

  elements-Each :
      (P : A → Type 0) (h : Heap A) (a k n : ℕ)
      → ((i : ℕ) → i < n → (x : A) × (h.cell a (k + i) ≡ some x) × P x)
      → (x : A) → In x (elements h a k n)
      → P x
  unfolding elements
  elements-Each P h a k zero c x m = absurd m
  elements-Each P h a k (suc n) c x m =
      let (y, e, py) = c 0 (omega arith) in
      let e' : h.cell a k ≡ some y = ap (h.cell a) (omega arith) ∙ e in
      elim (rw (e', elements) at m) [
        | inl same ↦ subst P (sym same) py
        | inr later ↦
            elements-Each P h a (k + 1) n
              (λ i l.
                let (z, f, pz) = c (suc i) (omega arith) in
                (z, ap (h.cell a) (omega arith) ∙ f, pz))
              x later
      ]

  pub contents-Each :
      (P : A → Type 0) (h : Heap A) (s : Slice) → Each P h s → (x : A) → In x (contents h s) → P x
  contents-Each P h s v =
      elements-Each P h s.address 0 s.len
        (λ i l. let (y, e, py) = v.cells i l in (y, ap (h.cell s.address) (omega arith) ∙ e, py))
