-- ===== src/Prelude/Outcome.antt =====
-- Go's pair of a value and an error, for functions that use one of the two.
use mathlib.Core.Path.{◌≡◌, refl, ap}
use native.Mathlib.Omega.{arith}
use mathlib.Core.Option.{Option, none, some}
use mathlib.Core.Logic.{◌⊎◌, inl, inr}

pub data Result {ℓ} (E A : Type ℓ) : Type ℓ where
  ok : A → Result E A
  err : E → Result E A

module _ {ℓ} {E A B : Type ℓ} where
  infixl 5 ◌>>=◌
  abbrev pub ◌>>=◌ : Result E A → (A → Result E B) → Result E B
  ok a >>= f = f a
  err e >>= f = err e

module _ {ℓ} {E F A : Type ℓ} where
  -- `fmt.Errorf` round the error of a callee.
  abbrev pub wrap_error : (E → F) → Result E A → Result F A
  wrap_error f (ok a) = ok a
  wrap_error f (err e) = err (f e)

module _ {ℓ} {E A : Type ℓ} where
  abbrev pub or_error : E → Option A → Result E A
  or_error e none = err e
  or_error e (some a) = ok a

  pub Result-cases : (r : Result E A) → ((a : A) × (r ≡ ok a)) ⊎ ((e : E) × (r ≡ err e))
  Result-cases (ok a) = inl (a, refl)
  Result-cases (err e) = inr (e, refl)

module _ {ℓ} {E F A : Type ℓ} where
  pub wrap_error_ok : (f : E → F) (r : Result E A) (a : A) → wrap_error f r ≡ ok a → r ≡ ok a
  wrap_error_ok f (ok x) a h = ap ok (ground arith)
  wrap_error_ok f (err e) a h = absurd cc
