-- ===== src/Common/Table.antt =====
-- A `dict` of objects that is keyed by a text field of the objects themselves, in insertion order.
use droid_web_display.Common.{
  suc, ◌≤◌, String, ◌≡◌, refl, Bool, true, false, Option, none, some, List, [], ◌∷◌, arith, str_eq,
  eq_iff, if◌then◌else◌, count,
}
use mathlib.Core.Option

module _ {ℓ} {A : Type ℓ} (key : A → String) where
  -- `d.get(k)`
  unfoldable pub find : String → List A → Option A
  find k [] = none
  find k (x ∷ xs) = if str_eq (key x) k then some x else find k xs

  -- `d[x.key] = x`
  unfoldable pub put : A → List A → List A
  put x [] = x ∷ []
  put x (y ∷ ys) = if str_eq (key y) (key x) then x ∷ ys else y ∷ put x ys

  -- An assignment to the fields of the object under `k`, where there is one.
  unfoldable pub update : String → (A → A) → List A → List A
  update k f [] = []
  update k f (x ∷ xs) = if str_eq (key x) k then f x ∷ xs else x ∷ update k f xs

  -- `d.pop(k, None)`
  unfoldable pub discard : String → List A → List A
  discard k [] = []
  discard k (x ∷ xs) = let rest = discard k xs in if str_eq (key x) k then rest else x ∷ rest

  pub find-put :
      (k : String) (x : A) (xs : List A)
      → find k (put x xs) ≡ (if str_eq (key x) k then some x else find k xs)
  unfolding find put
  find-put k x [] = refl
  find-put k x (y ∷ ys) =
      ground (arith, find-put k x ys, eq_iff (key y) (key x), eq_iff (key x) k, eq_iff (key y) k)

  pub find-discard :
      (k j : String) (xs : List A)
      → find j (discard k xs) ≡ (if str_eq k j then none else find j xs)
  unfolding find discard
  find-discard k j [] = ground arith
  find-discard k j (x ∷ xs) =
      ground (arith, find-discard k j xs, eq_iff (key x) k, eq_iff (key x) j, eq_iff k j)

  -- What is found under a key has that key.
  pub key-find : (k : String) (xs : List A) (x : A) → find k xs ≡ some x → key x ≡ k
  unfolding find
  key-find k [] x h = cc
  key-find k (y ∷ ys) x h = ground (arith, key-find k ys x, eq_iff (key y) k)

  module _ (f : A → A) (same : (x : A) → key (f x) ≡ key x) where
    pub find-update :
        (k j : String) (xs : List A)
        → find j (update k f xs) ≡ (if str_eq k j then Option.map f (find j xs) else find j xs)
    unfolding find update
    find-update k j [] = ground arith
    find-update k j (x ∷ xs) =
        ground (arith, find-update k j xs, same x, eq_iff (key x) k, eq_iff (key x) j, eq_iff k j)

  -- How many objects of a kind a change leaves.
  module _ (p : A → Bool) where
    pub count-put_new :
        (x : A) (xs : List A)
        → find (key x) xs ≡ none
        → count p (put x xs) ≡ (if p x then suc (count p xs) else count p xs)
    unfolding find put
    count-put_new x [] h = refl
    count-put_new x (y ∷ ys) h = ground (arith, count-put_new x ys)

    pub count-update :
        (f : A → A) (k : String) (xs : List A) → count p (update k f xs) ≤ suc (count p xs)
    unfolding update
    count-update f k [] = omega arith
    count-update f k (x ∷ xs) = ground (arith, count-update f k xs)

    -- A change that makes no object one of that kind.
    pub count-update_le :
        (f : A → A) (k : String) (xs : List A)
        → ((x : A) → p (f x) ≡ true → p x ≡ true)
        → count p (update k f xs) ≤ count p xs
    unfolding update
    count-update_le f k [] h = omega arith
    count-update_le f k (x ∷ xs) h = ground (arith, count-update_le f k xs h, h x)

    pub count-put_le :
        (x : A) (xs : List A) → count p (put x xs) ≤ (if p x then suc (count p xs) else count p xs)
    unfolding put
    count-put_le x [] = ground arith
    count-put_le x (y ∷ ys) = ground (arith, count-put_le x ys)

    -- An object of that kind in place of one that is not.
    pub count-put_over :
        (k : String) (x y : A) (xs : List A)
        → find k xs ≡ some y
        → key x ≡ k
        → p y ≡ false
        → p x ≡ true
        → count p (put x xs) ≡ suc (count p xs)
    unfolding find put
    count-put_over k x y [] h same old new = cc
    count-put_over k x y (z ∷ zs) h same old new =
        ground (arith, count-put_over k x y zs, eq_iff (key z) k, eq_iff (key z) (key x))
