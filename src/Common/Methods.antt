-- ===== src/Common/Methods.antt =====
-- A method of an object: it reads and writes the object, and returns a value or raises. What was
-- written before a raise stays written, so the object comes back beside the error too.
use mathlib.Core.Bool.{Bool, true, false}

pub data Result {ℓ κ} (E : Type ℓ) (A : Type κ) : Type (ℓ ⊔ κ) where
  ok : A → Result E A
  err : E → Result E A

abbrev pub Method {ℓ} : Type ℓ → Type ℓ → Type ℓ → Type ℓ
Method E S A = S → Result E A × S

module _ {ℓ} {E S A : Type ℓ} where
  abbrev pub return : A → Method E S A
  return a s = (ok a, s)

  abbrev pub raise : E → Method E S A
  raise e s = (err e, s)

  -- the value of a pure function that may raise
  abbrev pub lift : Result E A → Method E S A
  lift r s = (r, s)

  -- an attribute of the object
  abbrev pub reads : (S → A) → Method E S A
  reads f s = (ok (f s), s)

module _ {ℓ} {E S : Type ℓ} where
  -- an assignment to the object's attributes
  abbrev pub writes : (S → S) → Method E S (Unit {ℓ})
  writes f s = (ok tt, f s)

  -- `if not b: raise e`
  abbrev pub require : Bool → E → Method E S (Unit {ℓ})
  require true e s = (ok tt, s)
  require false e s = (err e, s)

module _ {ℓ} {E S A B : Type ℓ} where
  abbrev pub continue : Result E A → (A → Method E S B) → Method E S B
  continue (ok a) f s = f a s
  continue (err e) f s = (err e, s)

  infixl 10 ◌>>=◌ ◌>>◌
  abbrev pub ◌>>=◌ : Method E S A → (A → Method E S B) → Method E S B
  ◌>>=◌ m f s = let (r, t) = m s in continue r f t

  abbrev pub ◌>>◌ : Method E S A → Method E S B → Method E S B
  m >> n = m >>= λ _. n

-- A property of the object that the method keeps, whether it returns or raises.
pub record Keeps {ℓ κ} {E S A : Type ℓ} (P : S → Type κ) (m : Method E S A) : Type (ℓ ⊔ κ) where
  pub at : (s : S) → P s → P (m s).1

module _ {ℓ κ} {E S A B : Type ℓ} {P : S → Type κ} where
  continue-Keeps :
      (r : Result E A) (f : A → Method E S B) (s : S)
      → ((a : A) → Keeps P (f a))
      → P s
      → P (continue r f s).1
  continue-Keeps (ok a) f s k h = (k a).at s h
  continue-Keeps (err e) f s k h = h

  pub bind-Keeps :
      (m : Method E S A) (f : A → Method E S B)
      → Keeps P m
      → ((a : A) → Keeps P (f a))
      → Keeps P (m >>= f)
  bind-Keeps m f k l = record { at = λ s h. continue-Keeps (m s).0 f (m s).1 l (k.at s h) }
