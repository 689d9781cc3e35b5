-- ===== src/Base/Outcome.antt =====
-- How a call that the program wraps ends: it returns a value or raises.
use mathlib.Core.Path.{◌≡◌, refl}
use mathlib.Core.Logic.{◌⊎◌, inl, inr}

pub data Outcome {ℓ κ} (E : Type ℓ) (A : Type κ) : Type (ℓ ⊔ κ) where
  ret : A → Outcome E A
  raise : E → Outcome E A

pub Outcome-cases {ℓ κ} :
    {E : Type ℓ} {A : Type κ} (o : Outcome E A)
    → ((a : A) × (o ≡ ret a)) ⊎ ((e : E) × (o ≡ raise e))
Outcome-cases (ret a) = inl (a, refl)
Outcome-cases (raise e) = inr (e, refl)
