-- ===== src/Errors.antt =====
-- Go's errors as values. `wrap` and `at_index` are `errors.Wrap` and `errors.Wrapf(err, "index
-- %d", i)`; the text of a message is not formed.
use kube_throttler.Prelude.{ℕ, String, ◌≡◌, refl, subst, ◌⊎◌, inl, inr}

pub data Error : Type 0 where
  -- what a library call returns
  external : String → Error
  -- an error that `apierrors.IsNotFound` recognises
  not_found : Error
  wrap : String → Error → Error
  at_index : ℕ → Error → Error
  message : String → Error
  -- the program panics
  nil_dereference : Error
  panic : Error → Error

pub data Result {ℓ} (A : Type ℓ) : Type ℓ where
  ok : A → Result A
  err : Error → Result A

infixl 5 ◌>>=◌
abbrev pub ◌>>=◌ {ℓ κ} : {A : Type ℓ} {B : Type κ} → Result A → (A → Result B) → Result B
ok a >>= f = f a
err e >>= f = err e

-- A call that panics with the error of another.
abbrev pub or_die {ℓ} : {A : Type ℓ} → Result A → Result A
or_die (ok a) = ok a
or_die (err e) = err (panic e)

pub ok-subst {ℓ κ} : {A : Type ℓ} (P : A → Type κ) {a b : A} → ok a ≡ ok b → P a → P b
ok-subst P {a} {b} e p = subst P (cc) p

pub ok-injective {ℓ} : {A : Type ℓ} {a b : A} → ok a ≡ ok b → a ≡ b
ok-injective {a} e = ok-subst (λ c. a ≡ c) e refl

pub Result-cases {ℓ} :
    {A : Type ℓ} (r : Result A) → ((a : A) × (r ≡ ok a)) ⊎ ((e : Error) × (r ≡ err e))
Result-cases (ok a) = inl (a, refl)
Result-cases (err e) = inr (e, refl)
