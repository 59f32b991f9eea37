-- ===== src/Prelude/GoMap.antt =====
-- Go's `map[K]V` as an association list with distinct keys; a nil map is the empty one. A
-- `for k, v := range m` is `for_range`, in the order of the list.
use mathlib.Core.Path.{◌≡◌, refl, ◌∙◌, subst}
use mathlib.Core.Logic.{◌⊎◌, inl, inr}
use mathlib.Core.Bool.{Bool}
use mathlib.Core.Option.{Option, none, some}
use mathlib.Core.List.{List, [], ◌∷◌}
use native.Mathlib.Omega.{arith}
use kube_throttler.Prelude.Tests.{if◌then◌else◌, is_some, Bool-cases}
use kube_throttler.Prelude.Keys.{Eq, eq_of_beq, ◌==◌, eq_self}

abbrev pub GoMap {ℓ} : Type ℓ → Type ℓ → Type ℓ
GoMap K V = List (K × V)

-- The loop over the entries, with what it changes handed on.
unfoldable pub for_range {ℓ} : {K V S : Type ℓ} → GoMap K V → S → (K → V → S → S) → S
for_range [] s body = s
for_range ((k, v) ∷ m) s body = for_range m (body k v s) body

module _ {ℓ} {K V : Type ℓ} ⦃e : Eq K⦄ where
  -- `v, ok := m[k]`
  unfoldable pub get : K → GoMap K V → Option V
  get k [] = none
  get k ((j, v) ∷ m) = if j == k then some v else get k m

  -- `m[k] = v`
  unfoldable pub put : K → V → GoMap K V → GoMap K V
  put k v [] = (k, v) ∷ []
  put k v ((j, w) ∷ m) = if j == k then (j, v) ∷ m else (j, w) ∷ put k v m

  -- `delete(m, k)`
  unfoldable pub delete : K → GoMap K V → GoMap K V
  delete k [] = []
  delete k ((j, v) ∷ m) = let rest = delete k m in if j == k then rest else (j, v) ∷ rest

  abbrev pub has : K → GoMap K V → Bool
  has k m = is_some (get k m)

  -- No key stands twice.
  abbrev pub IsMap : GoMap K V → Type ℓ
  IsMap [] = Unit
  IsMap ((k, v) ∷ m) = (get k m ≡ none) × IsMap m

  pub get-cons :
      (k j : K) (v : V) (m : GoMap K V) → get j ((k, v) ∷ m) ≡ (if k == j then some v else get j m)
  unfolding get
  get-cons k j v m = refl

  pub get-cons_inv :
      (k j : K) (v : V) (m : GoMap K V) {w : V}
      → get j ((k, v) ∷ m) ≡ some w
      → ((k ≡ j) × (v ≡ w)) ⊎ (get j m ≡ some w)
  unfolding get
  get-cons_inv k j v m h = elim (Bool-cases (k == j)) [
    | inl same ↦ inl (eq_of_beq k j same, ground arith)
    | inr other ↦ inr (ground arith)
  ]

  pub get-put :
      (k j : K) (v : V) (m : GoMap K V) → get j (put k v m) ≡ (if k == j then some v else get j m)
  unfolding get put
  get-put k j v [] = refl
  get-put k j v ((i, w) ∷ m) =
      ground (arith, e.beq_iff k j, e.beq_iff i k, e.beq_iff i j, get-put k j v m)

  pub get-delete :
      (k j : K) (m : GoMap K V) → get j (delete k m) ≡ (if k == j then none else get j m)
  unfolding get delete
  get-delete k j [] = ground arith
  get-delete k j ((i, w) ∷ m) =
      ground (arith, e.beq_iff k j, e.beq_iff i k, e.beq_iff i j, get-delete k j m)

  pub put-IsMap : (k : K) (v : V) (m : GoMap K V) → IsMap m → IsMap (put k v m)
  unfolding get put
  put-IsMap k v [] h = (refl, tt)
  put-IsMap k v ((i, w) ∷ m) h =
      ground (arith, put-IsMap k v m, get-put k i v m, e.beq_iff i k, e.beq_iff k i)

  pub delete-IsMap : (k : K) (m : GoMap K V) → IsMap m → IsMap (delete k m)
  unfolding get delete
  delete-IsMap k [] h = tt
  delete-IsMap k ((i, w) ∷ m) h = ground (arith, delete-IsMap k m, get-delete k i m)

  pub delete_absent : (k : K) (m : GoMap K V) → get k m ≡ none → delete k m ≡ m
  unfolding get delete
  delete_absent k [] h = refl
  delete_absent k ((i, w) ∷ m) h = ground (arith, delete_absent k m)

  pub delete-put : (k : K) (v : V) (m : GoMap K V) → get k m ≡ none → delete k (put k v m) ≡ m
  unfolding get delete put
  delete-put k v [] h = ground (arith, eq_self k)
  delete-put k v ((i, w) ∷ m) h = ground (arith, delete-put k v m)

  -- Doing the same again changes nothing.
  pub put_again : (k : K) (v : V) (m : GoMap K V) → put k v (put k v m) ≡ put k v m
  unfolding put
  put_again k v [] = ground (arith, eq_self k)
  put_again k v ((i, w) ∷ m) = ground (arith, put_again k v m)

  pub delete-put_any : (k : K) (v : V) (m : GoMap K V) → delete k (put k v m) ≡ delete k m
  unfolding delete put
  delete-put_any k v [] = ground (arith, eq_self k)
  delete-put_any k v ((i, w) ∷ m) = ground (arith, delete-put_any k v m)

  pub delete_again : (k : K) (m : GoMap K V) → delete k (delete k m) ≡ delete k m
  delete_again k m = delete_absent k (delete k m) (get-delete k k m ∙ ground (arith, eq_self k))

-- A property of all values, and what keeps it.
abbrev pub AllValues {ℓ κ} : {K : Type ℓ} {V : Type ℓ} → (V → Type κ) → GoMap K V → Type κ
AllValues P [] = Unit
AllValues P ((k, v) ∷ m) = P v × AllValues P m

module _ {ℓ κ} {K V : Type ℓ} ⦃e : Eq K⦄ (P : V → Type κ) where
  pub put-AllValues :
      (k : K) (v : V) (m : GoMap K V) → P v → AllValues P m → AllValues P (put k v m)
  unfolding put
  put-AllValues k v [] p h = (p, tt)
  put-AllValues k v ((j, w) ∷ m) p h = elim (Bool-cases (j == k)) [
    | inl same ↦ rw same (p, h.1)
    | inr other ↦ rw other (h.0, put-AllValues k v m p h.1)
  ]

  pub delete-AllValues : (k : K) (m : GoMap K V) → AllValues P m → AllValues P (delete k m)
  unfolding delete
  delete-AllValues k [] h = tt
  delete-AllValues k ((j, w) ∷ m) h = elim (Bool-cases (j == k)) [
    | inl same ↦ rw same (delete-AllValues k m h.1)
    | inr other ↦ rw other (h.0, delete-AllValues k m h.1)
  ]

  pub get-AllValues : (k : K) (m : GoMap K V) {v : V} → AllValues P m → get k m ≡ some v → P v
  unfolding get
  get-AllValues k [] h g = absurd (cc)
  get-AllValues k ((j, w) ∷ m) h g = elim (get-cons_inv j k w m g) [
    | inl (_, same) ↦ subst P same h.0
    | inr later ↦ get-AllValues k m h.1 later
  ]

-- What a key holds after a loop whose body changes the key of the entry alone.
abbrev pub after_entry {ℓ} :
    {K V W : Type ℓ} → (K → Option V → W → Option V) → K → Option V → Option W → Option V
after_entry g k o none = o
after_entry g k o (some w) = g k o w

pub get-for_range {ℓ} :
    {K V W : Type ℓ} ⦃e : Eq K⦄ (rhs : GoMap K W) (body : K → W → GoMap K V → GoMap K V)
    (g : K → Option V → W → Option V)
    → ((k : K) (w : W) (m : GoMap K V) (j : K)
        → get j (body k w m) ≡ (if k == j then g k (get k m) w else get j m))
    → IsMap rhs
    → (m : GoMap K V) (j : K) → get j (for_range rhs m body) ≡ after_entry g j (get j m) (get j rhs)
unfolding for_range get
get-for_range [] body g h d m j = refl
get-for_range ⦃e⦄ ((k, w) ∷ rhs) body g h d m j =
    get-for_range rhs body g h d.1 (body k w m) j ∙ ground (arith, e.beq_iff k j, h k w m j)

-- What every round keeps holds after the loop.
pub for_range_inv {ℓ κ} :
    {K V S : Type ℓ} (P : S → Type κ) (m : GoMap K V) (body : K → V → S → S)
    → ((k : K) (v : V) (s : S) → P s → P (body k v s))
    → (s : S) → P s
    → P (for_range m s body)
unfolding for_range
for_range_inv P [] body h s p = p
for_range_inv P ((k, v) ∷ m) body h s p = for_range_inv P m body h (body k v s) (h k v s p)
