-- ===== src/Transfers/Filenames.antt =====
-- `sanitize_filename` and `join_android_path` of droid_web_display/transfers/paths.py.
use Prim.Native.Char.{Char, code}
use droid_web_display.Common.{
  ℕ, ◌-◌, String, Bool, false, ◌&&◌, ◌||◌, List, [], ◌∷◌, ◌++◌, ◌==◌, leb, if◌then◌else◌, map, take,
  Result, ok, err,
}
use droid_web_display.Common.Text.{chars, of_chars, codes, skip, skip_last, is_blank}
use droid_web_display.Transfers.Types.{Fault}
use droid_web_display.Transfers.Names.{stem_and_suffix}
use droid_web_display.Transfers.Paths.{parts, same_codes, normalize_android_path, absolute}

-- `Path(filename).name`
abbrev pub last_part : List String → List Char
last_part [] = []
last_part (part ∷ []) = chars part
last_part (part ∷ next ∷ rest) = last_part (next ∷ rest)

abbrev pub is_dot_or_space : Char → Bool
is_dot_or_space c = code c == b'.' || code c == b' '

-- `_WINDOWS_INVALID`
abbrev pub is_invalid : ℕ → Bool
is_invalid c =
    c == b'<'
    || c == b'>'
    || c == b':'
    || c == b'"'
    || c == b'/'
    || c == b'\\'
    || c == b'|'
    || c == b'?'
    || c == b'*'
    || leb c 0x1f

abbrev pub underscored : Char → Char
underscored c = if is_invalid (code c) then "_" else c

-- `upper` on ASCII text
abbrev pub upper_code : ℕ → ℕ
upper_code c = if leb b'a' c && leb c b'z' then c - 32 else c

-- `_WINDOWS_RESERVED`
abbrev pub is_port : List ℕ → Bool
is_port (a ∷ b ∷ c ∷ d ∷ []) =
    (same_codes (a ∷ b ∷ c ∷ []) (codes "COM") || same_codes (a ∷ b ∷ c ∷ []) (codes "LPT"))
    && leb b'1' d
    && leb d b'9'
is_port _ = false

abbrev pub is_reserved : List ℕ → Bool
is_reserved s =
    same_codes s (codes "CON")
    || same_codes s (codes "PRN")
    || same_codes s (codes "AUX")
    || same_codes s (codes "NUL")
    || is_port s

abbrev pub or_file : List Char → List Char
or_file [] = "f" ∷ "i" ∷ "l" ∷ "e" ∷ []
or_file (c ∷ s) = c ∷ s

abbrev pub unreserved : List Char → List Char
unreserved s =
    if is_reserved (map (λ c. upper_code (code c)) (stem_and_suffix s).0) then "_" ∷ s else s

abbrev pub stripped : String → List Char
stripped filename =
    skip_last is_dot_or_space
      (skip_last is_blank (skip is_blank (last_part (parts (chars filename)))))

abbrev pub sanitized : String → List Char
sanitized filename = take 240 (unreserved (or_file (map underscored (stripped filename))))

unfoldable pub sanitize_filename : String → String
sanitize_filename filename = of_chars (sanitized filename)

-- `PurePosixPath(directory) / safe_name`, of a name without slashes
abbrev pub below : String → String → String
below directory name = of_chars (absolute (parts (chars directory) ++ parts (chars name)))

unfoldable pub join_android_path : String → String → Result Fault String
join_android_path directory filename = elim (normalize_android_path directory) [
  | err f ↦ err f
  | ok normal ↦ normalize_android_path (below normal (sanitize_filename filename))
]
