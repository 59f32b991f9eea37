-- ===== src/ResourceList/Entries.antt =====
-- What each name holds after `Add`, `Sub`, `SetMax` and `SetMin`: the amount, or nothing.
use kube_throttler.Prelude.{
  string_eq, ◌==◌, String, ◌≡◌, refl, ap, ◌∙◌, get_or, is_some, Option, none, some, arith,
  if◌then◌else◌,
}
use kube_throttler.Prelude.Int.{ℤ, ◌+ℤ◌, ltb_ℤ, zero-+ℤ}
use kube_throttler.Prelude.GoMap.{
  get, has, for_range, after_entry, IsMap, get-put, get-delete, get-for_range, for_range_inv,
  put-IsMap,
}
use kube_throttler.Quantity.{Quantity}
use kube_throttler.Pod.{ResourceList}
use kube_throttler.ResourceList.{
  quantity_max, quantity_min, read, add, set_max_entry, set_max, set_min_entry, drop_entry, set_min,
}

abbrev pub max_ℤ : ℤ → ℤ → ℤ
max_ℤ a b = if ltb_ℤ a b then b else a

abbrev pub min_ℤ : ℤ → ℤ → ℤ
min_ℤ a b = if ltb_ℤ b a then b else a

-- Two amounts that may be missing, where one alone stands for itself.
abbrev pub join : (ℤ → ℤ → ℤ) → Option ℤ → Option ℤ → Option ℤ
join f none b = b
join f (some a) none = some a
join f (some a) (some b) = some (f a b)

pub join-none : (f : ℤ → ℤ → ℤ) (a : Option ℤ) → join f a none ≡ a
join-none f none = refl
join-none f (some a) = refl

-- What is left of the first is what both have.
abbrev pub meet : (ℤ → ℤ → ℤ) → Option ℤ → Option ℤ → Option ℤ
meet f (some a) (some b) = some (f a b)
meet f _ _ = none

module _ {Q : Type 0} ⦃q : Quantity Q⦄ where
  abbrev pub amount_of? : Option Q → Option ℤ
  amount_of? none = none
  amount_of? (some x) = some (q.amount x)

  -- The amount that a list gives for a name.
  abbrev pub amount_of : String → ResourceList Q → Option ℤ
  amount_of name m = amount_of? (get name m)

  amount-max : (x y : Q) → q.amount (quantity_max x y) ≡ max_ℤ (q.amount x) (q.amount y)
  unfolding quantity_max
  amount-max x y = ground (arith, q.cmp_lem x y)

  amount-min : (x y : Q) → q.amount (quantity_min x y) ≡ min_ℤ (q.amount x) (q.amount y)
  unfolding quantity_min
  amount-min x y = ground (arith, q.cmp_lem x y)

  -- `Add` gives each name the sum of what the two lists give, if the second is a map; what only one
  -- of them gives stays as it is.
  pub get-add :
      (lhs rhs : ResourceList Q) (name : String)
      → IsMap rhs
      → amount_of name (add lhs rhs) ≡ join ◌+ℤ◌ (amount_of name lhs) (amount_of name rhs)
  unfolding add
  get-add lhs rhs name d =
      rw
        (get-for_range rhs _ (λ _ o x. some (q.add (get_or q.zero_quantity o) x))
          (λ k w m j. get-put k j _ m) d lhs name)
        (cases (get name lhs) (get name rhs))
    where
      cases :
          (a b : Option Q)
          → amount_of? (after_entry (λ _ o x. some (q.add (get_or q.zero_quantity o) x)) name a b)
            ≡ join ◌+ℤ◌ (amount_of? a) (amount_of? b)
      cases none none = refl
      cases (some a) none = refl
      cases none (some b) = ap some (q.amount-add _ b ∙ rw q.amount-zero (zero-+ℤ (q.amount b)))
      cases (some a) (some b) = ap some (q.amount-add a b)

  set_max_entry-IsMap :
      (rhs : ResourceList Q) (k : String) (v : Q) (m : ResourceList Q)
      → IsMap m
      → IsMap (set_max_entry rhs k v m)
  set_max_entry-IsMap rhs k v m h =
      ground (arith, put-IsMap k (quantity_max (read k m) v) m, put-IsMap k (read k rhs) m)

  set_min_entry-IsMap :
      (k : String) (v : Q) (m : ResourceList Q) → IsMap m → IsMap (set_min_entry k v m)
  set_min_entry-IsMap k v m h = ground (arith, put-IsMap k (quantity_min (read k m) v) m)

  abbrev larger : ResourceList Q → String → Option Q → Q → Option Q
  larger rhs k o w =
      some (if is_some o then quantity_max (get_or q.zero_quantity o) w else read k rhs)

  abbrev smaller : String → Option Q → Q → Option Q
  smaller k none w = none
  smaller k (some a) w = some (quantity_min a w)

  get-set_max_entry :
      (rhs : ResourceList Q) (k : String) (w : Q) (m : ResourceList Q) (j : String)
      → get j (set_max_entry rhs k w m) ≡ (if k == j then larger rhs k (get k m) w else get j m)
  get-set_max_entry rhs k w m j =
      ground (arith, get-put k j (quantity_max (read k m) w) m, get-put k j (read k rhs) m)

  get-set_min_entry :
      (k : String) (w : Q) (m : ResourceList Q) (j : String)
      → get j (set_min_entry k w m) ≡ (if k == j then smaller k (get k m) w else get j m)
  get-set_min_entry k w m j =
      ground (arith, get-put k j (quantity_min (read k m) w) m, string_eq.beq_iff k j)

  -- `SetMax` gives each name the larger of what the two lists give, and what only one has as it is,
  -- if the second is a map.
  pub get-set_max :
      (lhs rhs : ResourceList Q) (name : String)
      → IsMap rhs
      → amount_of name (set_max lhs rhs) ≡ join max_ℤ (amount_of name lhs) (amount_of name rhs)
  unfolding set_max
  get-set_max lhs rhs name d =
      rw (get-for_range rhs (set_max_entry rhs) (larger rhs) (get-set_max_entry rhs) d lhs name)
        (cases (get name lhs) (get name rhs) refl)
    where
      cases :
          (a b : Option Q)
          → get name rhs ≡ b
          → amount_of? (after_entry (larger rhs) name a b)
            ≡ join max_ℤ (amount_of? a) (amount_of? b)
      cases none none h = refl
      cases (some a) none h = refl
      cases none (some b) h = rw h
      cases (some a) (some b) h = ap some (amount-max a b)

  get-drop_entry :
      (rhs : ResourceList Q) (k : String) (w : Q) (m : ResourceList Q) (j : String)
      → get j (drop_entry rhs k w m)
        ≡ (if k == j then (if has k rhs then get k m else none) else get j m)
  get-drop_entry rhs k w m j = ground (arith, get-delete k j m, string_eq.beq_iff k j)

  -- `SetMin` gives each name the smaller of what the two lists give, and no name that one of them
  -- lacks, if both are maps.
  pub get-set_min :
      (lhs rhs : ResourceList Q) (name : String)
      → IsMap lhs
      → IsMap rhs
      → amount_of name (set_min lhs rhs) ≡ meet min_ℤ (amount_of name lhs) (amount_of name rhs)
  unfolding set_min
  get-set_min lhs rhs name c d =
      rw
        (get-for_range left (drop_entry rhs) (λ k o _. if has k rhs then o else none)
          (get-drop_entry rhs) (for_range_inv IsMap rhs set_min_entry set_min_entry-IsMap lhs c)
          left name)
        (rw (get-for_range rhs set_min_entry smaller get-set_min_entry d lhs name)
          (cases (get name lhs) (get name rhs) refl))
    where
      left : ResourceList Q
      left = for_range rhs lhs set_min_entry

      kept : String → Option Q → Q → Option Q
      kept k o _ = if has k rhs then o else none

      cases :
          (a b : Option Q)
          → get name rhs ≡ b
          → amount_of?
              (after_entry kept name (after_entry smaller name a b) (after_entry smaller name a b))
            ≡ meet min_ℤ (amount_of? a) (amount_of? b)
      cases none none h = refl
      cases (some a) none h = rw h
      cases none (some b) h = refl
      cases (some a) (some b) h = rw h (ap some (amount-min a b))

  pub add-IsMap : (lhs rhs : ResourceList Q) → IsMap lhs → IsMap (add lhs rhs)
  unfolding add
  add-IsMap lhs rhs h = for_range_inv IsMap rhs _ (λ k v m d. put-IsMap k _ m d) lhs h

  pub set_max-IsMap : (lhs rhs : ResourceList Q) → IsMap lhs → IsMap (set_max lhs rhs)
  unfolding set_max
  set_max-IsMap lhs rhs h =
      for_range_inv IsMap rhs (set_max_entry rhs) (set_max_entry-IsMap rhs) lhs h
