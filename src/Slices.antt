-- ===== src/Slices.antt =====
-- Go's slices: an array on a heap, and a length. `append` writes into the array behind a slice
-- while there is room, so two slices can share cells; the capacity of a new array is `grow` of the
-- length that it must hold.
pub mod Frame
use kube_throttler.Prelude.{
  ℕ, zero, suc, ◌+◌, Bool, true, false, ◌&&◌, Option, none, some, List, [], ◌∷◌, ◌++◌, ltb, nat_beq,
  if◌then◌else◌,
}

pub record Slice : Type 0 where
  pub address : ℕ
  pub len : ℕ

pub record Heap (A : Type 0) : Type 0 where
  -- the first address that is free
  pub next : ℕ
  pub capacity : ℕ → ℕ
  pub cell : ℕ → ℕ → Option A

module _ {A : Type 0} where
  -- `[]*T{}`
  unfoldable pub make_empty : Heap A → Slice × Heap A
  make_empty h = (
    record { address = h.next; len = 0 },
    record h { next = h.next + 1; capacity = λ a. if nat_beq a h.next then 0 else h.capacity a },
  )

  -- `append(s, x)`
  unfoldable pub append : (ℕ → ℕ) → Slice → A → Heap A → Slice × Heap A
  append grow s x h =
      if ltb s.len (h.capacity s.address)
      then (
        record s { len = s.len + 1 },
        record h {
          cell = λ a i. if nat_beq a s.address && nat_beq i s.len then some x else h.cell a i;
        },
      )
      else (
        record { address = h.next; len = s.len + 1 },
        record {
          next = h.next + 1;
          capacity = λ a. if nat_beq a h.next then grow (s.len + 1) else h.capacity a;
          cell = λ a i.
              if nat_beq a h.next
              then (if ltb i s.len
                  then h.cell s.address i
                  else if nat_beq i s.len
                  then some x
                  else none)
              else h.cell a i;
        },
      )

  -- the elements from an index on, as many as a number says
  unfoldable pub elements : Heap A → ℕ → ℕ → ℕ → List A
  elements h address i zero = []
  elements h address i (suc n) = elim (h.cell address i) [
    | none ↦ elements h address (i + 1) n
    | some x ↦ x ∷ elements h address (i + 1) n
  ]

  abbrev pub contents : Heap A → Slice → List A
  contents h s = elements h s.address 0 s.len
