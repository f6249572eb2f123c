-- ===== src/Prelude/Results.antt =====
-- A computation that may throw. The error type is the component's own.
use mathlib.Core.Path.{◌≡◌, refl}
use mathlib.Core.Logic.{◌⊎◌, inl, inr}

pub data Result {ℓ} (E A : Type ℓ) : Type ℓ where
  ok : A → Result E A
  err : E → Result E A

module _ {ℓ} {E A B : Type ℓ} where
  infixl 5 ◌>>=◌
  abbrev pub ◌>>=◌ : Result E A → (A → Result E B) → Result E B
  ok a >>= f = f a
  err e >>= f = err e

  -- Where a chain succeeds its first step did, and so did what follows it.
  pub bind-succeeds :
      {b : B} (step : Result E A) (rest : A → Result E B)
      → (step >>= rest) ≡ ok b
      → (a : A) × (step ≡ ok a) × (rest a ≡ ok b)
  bind-succeeds (err e) rest done = cc
  bind-succeeds (ok a) rest done = (a, refl, done)

pub Result-cases {ℓ} :
    {E A : Type ℓ} (r : Result E A) → ((a : A) × (r ≡ ok a)) ⊎ ((e : E) × (r ≡ err e))
Result-cases (ok a) = inl (a, refl)
Result-cases (err e) = inr (e, refl)

pub ok-injective {ℓ} : {E A : Type ℓ} {a b : A} {r : Result E A} → r ≡ ok a → r ≡ ok b → a ≡ b
ok-injective e f = cc
