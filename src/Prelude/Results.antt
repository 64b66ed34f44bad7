-- ===== src/Prelude/Results.antt =====
-- `(value, error)` of the source: a value or an error.
use mathlib.Core.Path.{◌≡◌, refl}

pub data Result {ℓ} (E A : Type ℓ) : Type ℓ where
  ok : A → Result E A
  err : E → Result E A

module _ {ℓ} {E A B : Type ℓ} where
  infixl 5 ◌>>=◌
  abbrev pub ◌>>=◌ : Result E A → (A → Result E B) → Result E B
  ok a >>= f = f a
  err e >>= f = err e

module _ {ℓ} {E A : Type ℓ} where
  -- the result is a value
  abbrev pub IsOk : Result E A → Type 0
  IsOk (ok a) = Unit
  IsOk (err e) = ⊥

  pub IsOk-value : (r : Result E A) → IsOk r → (a : A) × (r ≡ ok a)
  IsOk-value (ok a) h = (a, refl)
  IsOk-value (err e) h = absurd h

module _ {ℓ} {E A B : Type ℓ} where
  pub IsOk->>= :
      (r : Result E A) (f : A → Result E B) → IsOk r → ((a : A) → IsOk (f a)) → IsOk (r >>= f)
  IsOk->>= (ok a) f h k = k a
  IsOk->>= (err e) f h k = absurd h
