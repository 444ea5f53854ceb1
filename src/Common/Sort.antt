-- ===== src/Common/Sort.antt =====
-- `sorted`: stable, by a test of which of two items may stand first.
use droid_web_display.Common.{
  suc, ◌≡◌, refl, Bool, List, [], ◌∷◌, arith, if◌then◌else◌, count, length,
}

module _ {ℓ} {A : Type ℓ} (before : A → A → Bool) where
  unfoldable pub place : A → List A → List A
  place x [] = x ∷ []
  place x (y ∷ ys) = if before x y then x ∷ y ∷ ys else y ∷ place x ys

  unfoldable pub sort : List A → List A
  unfolding place
  sort [] = []
  sort (x ∷ xs) = place x (sort xs)

  -- Sorting keeps how many items of each kind there are.
  module _ (p : A → Bool) where
    count-place : (x : A) (xs : List A) → count p (place x xs) ≡ count p (x ∷ xs)
    unfolding place
    count-place x [] = refl
    count-place x (y ∷ ys) = ground (arith, count-place x ys)

    pub count-sort : (xs : List A) → count p (sort xs) ≡ count p xs
    unfolding sort
    count-sort [] = refl
    count-sort (x ∷ xs) = ground (arith, count-place x (sort xs), count-sort xs)

  length-place : (x : A) (xs : List A) → length (place x xs) ≡ suc (length xs)
  unfolding place
  length-place x [] = refl
  length-place x (y ∷ ys) = ground (arith, length-place x ys)

  pub length-sort : (xs : List A) → length (sort xs) ≡ length xs
  unfolding sort
  length-sort [] = refl
  length-sort (x ∷ xs) = omega (arith, length-place x (sort xs), length-sort xs)
