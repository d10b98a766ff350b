-- ===== src/Error.antt =====
-- src/pwg-error.h. A function that takes a `GError **` returns an `Outcome`: the value that it
-- returns on success, or the code that it puts into the error.

use pipewire_gobject.Prelude.{◌≡◌, refl, ◌⊎◌, inl, inr}

pub data PwgError : Type 0 where
  failed no_memory pipewire : PwgError

pub data Outcome {ℓ} (A : Type ℓ) : Type ℓ where
  ok : A → Outcome A
  err : PwgError → Outcome A

module _ {ℓ} {A : Type ℓ} where
  pub Outcome-cases : (o : Outcome A) → ((a : A) × (o ≡ ok a)) ⊎ ((e : PwgError) × (o ≡ err e))
  Outcome-cases (ok a) = inl (a, refl)
  Outcome-cases (err e) = inr (e, refl)
