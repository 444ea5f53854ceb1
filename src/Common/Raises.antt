-- ===== src/Common/Raises.antt =====
-- Pure functions that may raise.
use mathlib.Core.Path.{◌≡◌, refl}
use mathlib.Core.Logic.{◌⊎◌, inl, inr}
use mathlib.Core.Bool.{Bool, true, false}
use droid_web_display.Common.Methods.{Result, ok, err}

module _ {ℓ κ} {E : Type ℓ} {A B : Type κ} where
  infixl 10 ◌>>=◌ ◌>>◌
  abbrev pub ◌>>=◌ : Result E A → (A → Result E B) → Result E B
  ok a >>= f = f a
  err e >>= f = err e

  abbrev pub ◌>>◌ : Result E A → Result E B → Result E B
  ok a >> r = r
  err e >> r = err e

-- `if not b: raise e`
abbrev pub assert {ℓ} : {E : Type ℓ} → Bool → E → Result E (Unit {0})
assert true e = ok tt
assert false e = err e

pub Result-cases {ℓ κ} :
    {E : Type ℓ} {A : Type κ} (r : Result E A) → ((a : A) × (r ≡ ok a)) ⊎ ((e : E) × (r ≡ err e))
Result-cases (ok a) = inl (a, refl)
Result-cases (err e) = inr (e, refl)
