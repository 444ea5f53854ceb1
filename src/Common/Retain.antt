-- ===== src/Common/Retain.antt =====
-- Bounding a table: the oldest of the objects of one kind are dropped, down to a limit.
use droid_web_display.Common.{
  ℕ, ◌+◌, ◌-◌, ◌≤◌, String, ◌≡◌, refl, ap, Bool, true, false, not, ◌&&◌, List, [], ◌∷◌, ◌++◌, arith,
  str_eq, eq_iff, count, length, take, drop, any, keep, take-append-drop, length-drop, inl, inr,
  Bool-cases,
}
use droid_web_display.Common.Table.{find}
use droid_web_display.Common.Sort.{sort, count-sort, length-sort}

module _ {ℓ} {A : Type ℓ} where
  count-append : (p : A → Bool) (xs ys : List A) → count p (xs ++ ys) ≡ count p xs + count p ys
  count-append p [] ys = omega arith
  count-append p (x ∷ xs) ys = ground (arith, count-append p xs ys)

  count-le-length : (p : A → Bool) (xs : List A) → count p xs ≤ length xs
  count-le-length p [] = omega arith
  count-le-length p (x ∷ xs) = ground (arith, count-le-length p xs)

  count-take : (p : A → Bool) (n : ℕ) (xs : List A) → count p (take n xs) ≤ count p xs
  count-take p n xs =
      let split : count p (take n xs ++ drop n xs) ≡ count p xs = rw (take-append-drop n xs) refl in
      omega (arith, split, count-append p (take n xs) (drop n xs))

  count-keep : (p q : A → Bool) (xs : List A) → count q (keep p xs) ≡ count (λ x. p x && q x) xs
  count-keep p q [] = refl
  count-keep p q (x ∷ xs) = ground (arith, count-keep p q xs)

module _ {ℓ} {A : Type ℓ} (key : A → String) where
  -- Whether one of the objects has that key.
  abbrev pub has_key : List A → String → Bool
  has_key ss k = any (λ s. str_eq (key s) k) ss

  -- `{k: x for k, x in d.items() if k not in stale}`
  abbrev pub without : List A → List A → List A
  without ss xs = keep (λ x. not (has_key ss (key x))) xs

  has_key-head : (s : A) (ss : List A) → has_key (s ∷ ss) (key s) ≡ true
  has_key-head s ss = ground (arith, eq_iff (key s) (key s))

  count_self :
      (ss ts : List A)
      → ((x : A) → has_key ss (key x) ≡ true → has_key ts (key x) ≡ true)
      → count (λ x. not (has_key ts (key x))) ss ≡ 0
  count_self [] ts sub = refl
  count_self (s ∷ ss) ts sub =
      ground (arith, sub s (has_key-head s ss), count_self ss ts (λ x h. sub x (ground (arith, h))))

  find-without :
      (ss : List A) (k : String) (xs : List A)
      → has_key ss k ≡ false
      → find key k (without ss xs) ≡ find key k xs
  unfolding find
  find-without ss k [] h = refl
  find-without ss k (x ∷ xs) h = elim (Bool-cases (str_eq (key x) k)) [
    | inl same ↦
        ground (arith, same, h, ap (has_key ss) ((eq_iff (key x) k).0 same), find-without ss k xs h)
    | inr other ↦ ground (arith, other, find-without ss k xs h)
  ]

  has_key-count :
      (k : String) (ss : List A) → count (λ s. str_eq (key s) k) ss ≡ 0 → has_key ss k ≡ false
  has_key-count k [] h = refl
  has_key-count k (s ∷ ss) h = ground (arith, has_key-count k ss)

  module _ (p : A → Bool) (before : A → A → Bool) (limit : ℕ) where
    -- The oldest objects of the kind, as many as there are above the limit.
    abbrev pub stale : List A → List A
    stale xs = take (length (keep p xs) - limit) (sort before (keep p xs))

    -- What is left has no more of the kind than the limit.
    pub count-without-stale : (xs : List A) → count p (without (stale xs) xs) ≤ limit
    count-without-stale xs =
        let old = stale xs in
        let fresh = λ (x : A). not (has_key old (key x)) in
        let sorted = sort before (keep p xs) in
        let n = length (keep p xs) - limit in
        let whole : count fresh (take n sorted ++ drop n sorted) ≡ count fresh sorted =
          rw (take-append-drop n sorted) refl in
        omega (
          arith,
          swap_tests fresh xs,
          count-keep fresh p xs,
          count-keep p fresh xs,
          count-sort before fresh (keep p xs),
          whole,
          count-append fresh (take n sorted) (drop n sorted),
          count_self old old (λ x h. h),
          count-le-length fresh (drop n sorted),
          length-drop n sorted,
          length-sort before (keep p xs),
        )
      where
        swap_tests :
            (q : A → Bool) (ys : List A) → count (λ x. q x && p x) ys ≡ count (λ x. p x && q x) ys
        swap_tests q [] = refl
        swap_tests q (y ∷ ys) = ground (arith, swap_tests q ys)

    -- An object is still found under its key if none of the kind has that key.
    pub find-without-stale :
        (k : String) (xs : List A)
        → count (λ x. p x && str_eq (key x) k) xs ≡ 0
        → find key k (without (stale xs) xs) ≡ find key k xs
    find-without-stale k xs h = find-without (stale xs) k xs (
        has_key-count k (stale xs) (
          omega (
            arith,
            h,
            count-take (λ s. str_eq (key s) k) (length (keep p xs) - limit)
                (sort before (keep p xs)),
            count-sort before (λ s. str_eq (key s) k) (keep p xs),
            count-keep p (λ s. str_eq (key s) k) xs,
          )))
