-- ===== src/Transfers/SafeNames.antt =====
-- What `sanitize_filename` of droid_web_display/transfers/paths.py makes of any text.
use Prim.Native.Char.{Char, code}
use droid_web_display.Common.{
  ℕ, zero, suc, ◌≤◌, ltb, ◌==◌, ◌||◌, ◌≡◌, refl, sym, String, Bool, true, false, List, [], ◌∷◌, any,
  map, take, length, arith, length-take, if◌then◌else◌,
}
use droid_web_display.Transfers.Filenames.{
  is_invalid, underscored, or_file, unreserved, stripped, sanitized, is_reserved, upper_code,
}
use droid_web_display.Transfers.Names.{stem_and_suffix}

abbrev is_bad : Char → Bool
is_bad c = is_invalid (code c)

-- What Windows refuses in a file name: a control character, or one of " * / : < > ? \ and |.
abbrev pub refused : List ℕ
refused = 34 ∷ 42 ∷ 47 ∷ 58 ∷ 60 ∷ 62 ∷ 63 ∷ 92 ∷ 124 ∷ []

abbrev pub is_refused : ℕ → Bool
is_refused n = ltb n 32 || any (λ r. n == r) refused

abbrev pub IsClean : List Char → Type 0
IsClean s = any (λ c. is_refused (code c)) s ≡ false

refused_if : (n : ℕ) → is_invalid n ≡ false → is_refused n ≡ false
refused_if n h = ground (arith, h)

underscored-clean : (c : Char) → is_refused (code (underscored c)) ≡ false
underscored-clean c =
    elim (is_bad c) as (λ b. b ≡ is_bad c → is_refused (code (if b then "_" else c)) ≡ false) [
      | true ↦ λ h. refl
      | false ↦ λ h. refused_if (code c) (sym h)
    ]
      refl

map-underscored-IsClean : (s : List Char) → IsClean (map underscored s)
map-underscored-IsClean [] = refl
map-underscored-IsClean (c ∷ s) = rw (underscored-clean c) (map-underscored-IsClean s)

or_file-IsClean : (s : List Char) → IsClean s → IsClean (or_file s)
or_file-IsClean [] h = refl
or_file-IsClean (c ∷ s) h = h

prefixed-IsClean : (b : Bool) (s : List Char) → IsClean s → IsClean (if b then "_" ∷ s else s)
prefixed-IsClean true s h = h
prefixed-IsClean false s h = h

take-IsClean : (n : ℕ) (s : List Char) → IsClean s → IsClean (take n s)
take-IsClean zero s h = refl
take-IsClean (suc n) [] h = refl
take-IsClean (suc n) (c ∷ s) h = ground (arith, take-IsClean n s)

length-or_file : (s : List Char) → 1 ≤ length (or_file s)
length-or_file [] = omega arith
length-or_file (c ∷ s) = omega arith

length-prefixed : (b : Bool) (s : List Char) → length s ≤ length (if b then "_" ∷ s else s)
length-prefixed true s = omega arith
length-prefixed false s = omega arith

-- Whatever name is given, the sanitized one has at least one character and at most 240, and none
-- is a control character or one of " * / : < > ? \ and |, which Windows refuses in a file name.
pub sanitized-IsClean :
    (filename : String)
    → IsClean (sanitized filename)
      × (1 ≤ length (sanitized filename))
      × (length (sanitized filename) ≤ 240)
sanitized-IsClean filename = (
  take-IsClean 240 (unreserved named) (
      prefixed-IsClean reserved named (
        or_file-IsClean (map underscored (stripped filename))
          (map-underscored-IsClean (stripped filename)))),
  omega (
    arith,
    length-take 240 (unreserved named),
    length-prefixed reserved named,
    length-or_file (map underscored (stripped filename)),
  ),
  omega (arith, length-take 240 (unreserved named)),
)
  where
    named : List Char
    named = or_file (map underscored (stripped filename))

    reserved : Bool
    reserved = is_reserved (map (λ c. upper_code (code c)) (stem_and_suffix named).0)
