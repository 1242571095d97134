-- ===== src/Prelude/Outcome.antt =====
-- Rust's `Result`, and the split on its two cases.
use mathlib.Core.Path.{◌≡◌, refl}
use mathlib.Core.Logic.{◌⊎◌, inl, inr}

pub data Result {ℓ} (A : Type ℓ) (E : Type ℓ) : Type ℓ where
  ok : A → Result A E
  err : E → Result A E

pub Result-cases {ℓ} :
    {A E : Type ℓ} (r : Result A E) → ((a : A) × (r ≡ ok a)) ⊎ ((e : E) × (r ≡ err e))
Result-cases (ok a) = inl (a, refl)
Result-cases (err e) = inr (e, refl)
