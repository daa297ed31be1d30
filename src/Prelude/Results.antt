-- ===== src/Prelude/Results.antt =====
-- Rust's `Result` and its `?` operator, as a type and a monad.
use mathlib.Core.Path.{◌≡◌, refl}
use mathlib.Core.Logic.{◌≢◌, ◌⊎◌, inl, inr}
use mathlib.Core.Option.{Option, some}
use mathlib.Core.Bool.{Bool, true, false}

pub data Result {ℓ} (E A : Type ℓ) : Type ℓ where
  ok : A → Result E A
  err : E → Result E A

-- An early `return Err(e)` unless the test holds.
abbrev pub guard : {E : Type 0} → Bool → E → Result E (Unit {0})
guard false fault = err fault
guard true fault = ok tt

module _ {ℓ} {E A : Type ℓ} where
  pub Result-cases : (r : Result E A) → ((e : E) × (r ≡ err e)) ⊎ ((a : A) × (r ≡ ok a))
  Result-cases (ok a) = inr (a, refl)
  Result-cases (err e) = inl (e, refl)

  pub ok_injective : {a b : A} → ◌≡◌ {A = Result E A} (ok a) (ok b) → a ≡ b
  ok_injective e = cc

  pub err_injective : {e e' : E} → ◌≡◌ {A = Result E A} (err e) (err e') → e ≡ e'
  err_injective h = cc

  pub err_ne_ok : {a : A} {e : E} → ◌≢◌ {A = Result E A} (err e) (ok a)
  err_ne_ok h = cc

module _ {ℓ} {E A B : Type ℓ} where
  infixl 5 ◌>>=◌
  abbrev pub ◌>>=◌ : Result E A → (A → Result E B) → Result E B
  err fault >>= next = err fault
  ok value >>= next = next value

  -- What `?` has let through, where the parts do not compute.
  pub >>=-eq-ok :
      (first : Result E A) (next : A → Result E B) {last : B}
      → (first >>= next) ≡ ok last
      → (value : A) × (first ≡ ok value) × (next value ≡ ok last)
  >>=-eq-ok (err fault) next e = cc
  >>=-eq-ok (ok value) next e = (value, refl, e)

module _ {ℓ} {E B : Type ℓ} where
  infixl 5 ◌>>◌
  abbrev pub ◌>>◌ : Result E (Unit {ℓ}) → Result E B → Result E B
  first >> second = first >>= λ nothing. second

module _ {ℓ} {A : Type ℓ} where
  pub some_injective : {a b : A} → ◌≡◌ {A = Option A} (some a) (some b) → a ≡ b
  some_injective h = cc
