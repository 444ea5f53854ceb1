-- ===== src/Common/Text.antt =====
-- Python's text operations, on the code points of a text.
use Prim.Native.Nat.{ℕ, zero, suc, ◌+◌, ◌/◌, ◌%◌}
use Prim.Native.Char.{Char, code}
use Prim.Native.String.{String}
use mathlib.Core.Bool.{Bool, true, false, not, ◌&&◌, ◌||◌}
use mathlib.Core.List.{List, [], ◌∷◌, ◌++◌, map}
use droid_web_display.Common.Tests.{leb, ltb, ◌==◌, if◌then◌else◌}

-- The code points of a text.
abbrev pub codes : String → List ℕ
codes String.[] = []
codes (String.◌∷◌ c s) = code c ∷ codes s

-- `s[:n]`
unfoldable pub str_take : ℕ → String → String
str_take zero s = String.[]
str_take (suc n) String.[] = String.[]
str_take (suc n) (String.◌∷◌ c s) = String.◌∷◌ c (str_take n s)

-- `s.lower()` on ASCII text; other code points stay as they are.
unfoldable pub lower_code : ℕ → ℕ
lower_code c = if leb b'A' c && leb c b'Z' then c + 32 else c

abbrev pub lower : String → List ℕ
lower s = map lower_code (codes s)

unfoldable pub is_prefix : List ℕ → List ℕ → Bool
is_prefix [] s = true
is_prefix (c ∷ p) [] = false
is_prefix (c ∷ p) (d ∷ s) = c == d && is_prefix p s

-- `s.endswith(p)`
unfoldable pub is_suffix : List ℕ → List ℕ → Bool
unfolding is_prefix
is_suffix p [] = is_prefix p []
is_suffix p (c ∷ s) = (is_prefix p (c ∷ s) && is_prefix (c ∷ s) p) || is_suffix p s

-- `needle in s`
unfoldable pub contains : List ℕ → List ℕ → Bool
unfolding is_prefix
contains needle [] = is_prefix needle []
contains needle (c ∷ s) = is_prefix needle (c ∷ s) || contains needle s

-- `c.isspace()`
unfoldable pub is_space : ℕ → Bool
is_space c =
    (leb 9 c && leb c 13)
    || (leb 28 c && leb c 32)
    || c == 0x85
    || c == 0xa0
    || c == 0x1680
    || (leb 0x2000 c && leb c 0x200a)
    || c == 0x2028
    || c == 0x2029
    || c == 0x202f
    || c == 0x205f
    || c == 0x3000

unfoldable pub chars : String → List Char
chars String.[] = []
chars (String.◌∷◌ c s) = c ∷ chars s

unfoldable pub of_chars : List Char → String
of_chars [] = String.[]
of_chars (c ∷ cs) = String.◌∷◌ c (of_chars cs)

-- `" ".join(s.split())`, from inside a word (`started`) or behind white space (`pending`).
unfoldable pub squash : Bool → Bool → List Char → List Char
unfolding is_space
squash started pending [] = []
squash started pending (c ∷ s) = elim (is_space (code c)) [
  | true ↦ squash started started s
  | false ↦ elim pending [ true ↦ " " ∷ c ∷ squash true false s | false ↦ c ∷ squash true false s ]
]

unfoldable pub join_words : String → String
unfolding squash chars of_chars
join_words s = of_chars (squash false false (chars s))

-- What `strip` leaves at each end.
unfoldable pub skip : (Char → Bool) → List Char → List Char
skip p [] = []
skip p (c ∷ s) = let rest = skip p s in if p c then rest else c ∷ s

unfoldable pub skip_last : (Char → Bool) → List Char → List Char
skip_last p [] = []
skip_last p (c ∷ s) = elim (skip_last p s) [
  | [] ↦ if p c then [] else c ∷ []
  | d ∷ rest ↦ c ∷ d ∷ rest
]

abbrev pub is_blank : Char → Bool
is_blank c = is_space (code c)

-- `s.strip()`
unfoldable pub strip : String → String
unfolding chars of_chars skip skip_last is_space
strip s = of_chars (skip_last is_blank (skip is_blank (chars s)))

abbrev pub digit : ℕ → Char
digit n =
    if n == 0
    then "0"
    else if n == 1
    then "1"
    else if n == 2
    then "2"
    else if n == 3
    then "3"
    else if n == 4
    then "4"
    else if n == 5
    then "5"
    else if n == 6
    then "6"
    else if n == 7
    then "7"
    else if n == 8
    then "8"
    else "9"

-- The decimal digits of a number, at most as many as the fuel.
unfoldable pub decimal : ℕ → ℕ → List Char
decimal zero n = []
decimal (suc fuel) n =
    let rest = decimal fuel (n / 10) in
    if ltb n 10 then digit n ∷ [] else rest ++ digit (n % 10) ∷ []

-- The order of texts by their code points.
unfoldable pub text_le : List ℕ → List ℕ → Bool
text_le [] t = true
text_le (c ∷ s) [] = false
text_le (c ∷ s) (d ∷ t) = let rest = text_le s t in ltb c d || (c == d && rest)

unfoldable pub text_lt : List ℕ → List ℕ → Bool
unfolding text_le
text_lt s t = not (text_le t s)
