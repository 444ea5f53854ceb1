-- ===== src/Common/Ensures.antt =====
-- What holds of the object once a method has returned, given what held before its call.
use droid_web_display.Common.{◌≡◌, refl, Result, ok, err, Method, continue}

pub record Ensures {ℓ κ μ} {E S A : Type ℓ} (P : S → Type κ) (m : Method E S A) (Q : S → Type μ)
    : Type (ℓ ⊔ κ ⊔ μ) where
  pub at : (s : S) → P s → (a : A) → (m s).0 ≡ ok a → Q (m s).1

-- Nothing is asked for.
abbrev pub Anything {ℓ} : {S : Type ℓ} → S → Type 0
Anything s = Unit

module _ {ℓ ν} {E S A B : Type ℓ} (R : S → Type ν) where
  -- What holds at the end of a call that goes on with a result.
  pub at_end :
      (r : Result E A) (f : A → Method E S B) (s : S)
      → ((a : A) → r ≡ ok a → (b : B) → (f a s).0 ≡ ok b → R (f a s).1)
      → (b : B) → (continue r f s).0 ≡ ok b
      → R (continue r f s).1
  at_end (ok a) f s k b h = k a refl b h
  at_end (err e) f s k b h = cc

module _ {ℓ μ ν} {E S A B : Type ℓ} {Q : S → Type μ} {R : S → Type ν} where
  pub continue-Ensures :
      (r : Result E A) (f : A → Method E S B) (s : S)
      → ((a : A) → r ≡ ok a → Q s)
      → ((a : A) → Ensures Q (f a) R)
      → (b : B) → (continue r f s).0 ≡ ok b
      → R (continue r f s).1
  continue-Ensures (ok a) f s q k b h = (k a).at s (q a refl) b h
  continue-Ensures (err e) f s q k b h = cc
