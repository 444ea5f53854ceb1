-- ===== src/Transfers/Paths.antt =====
-- The Android paths of droid_web_display/transfers/paths.py, as texts of characters.
use Prim.Native.Char.{Char, code}
use droid_web_display.Common.{
  ℕ, String, Bool, true, false, not, ◌&&◌, ◌||◌, Option, none, some, List, [], ◌∷◌, ◌++◌, ◌==◌, leb,
  str_eq, if◌then◌else◌, take, drop, any, keep, map, Result, ok, err,
}
use droid_web_display.Common.Text.{chars, of_chars, codes, lower, lower_code, is_prefix}
use droid_web_display.Transfers.Types.{Fault, validation}

-- `s.split("/")`
unfoldable pub pieces : List Char → List (List Char)
pieces [] = [] ∷ []
pieces (c ∷ s) = elim (pieces s) [
  | [] ↦ (c ∷ []) ∷ []
  | piece ∷ rest ↦ if code c == b'/' then [] ∷ piece ∷ rest else (c ∷ piece) ∷ rest
]

abbrev pub is_part : String → Bool
is_part part = not (str_eq part "" || str_eq part ".")

-- The parts of a `PurePosixPath` behind its root.
unfoldable pub parts : List Char → List String
unfolding pieces of_chars
parts s = keep is_part (map of_chars (pieces s))

-- `str` of an absolute path of these parts
unfoldable pub slashed : List String → List Char
unfolding chars
slashed [] = []
slashed (part ∷ rest) = "/" ∷ (chars part ++ slashed rest)

abbrev pub absolute : List String → List Char
absolute [] = "/" ∷ []
absolute (part ∷ rest) = slashed (part ∷ rest)

abbrev pub is_absolute : List Char → Bool
is_absolute [] = false
is_absolute (c ∷ s) = code c == b'/'

-- A root of exactly two slashes is a root of its own.
abbrev pub is_double : List Char → Bool
is_double s =
    is_prefix (b'/' ∷ b'/' ∷ []) (map code s)
    && not (is_prefix (b'/' ∷ b'/' ∷ b'/' ∷ []) (map code s))

-- `ANDROID_PATH_ALIASES`
abbrev pub unalias_mnt : List String → List String
unalias_mnt (a ∷ b ∷ rest) =
    if str_eq a "mnt" && str_eq b "sdcard" then "sdcard" ∷ rest else a ∷ b ∷ rest
unalias_mnt ps = ps

abbrev pub unalias : List String → List String
unalias (a ∷ b ∷ c ∷ rest) =
    if str_eq a "storage" && str_eq b "emulated" && str_eq c "0"
    then "sdcard" ∷ rest
    else unalias_mnt (a ∷ b ∷ c ∷ rest)
unalias ps = unalias_mnt ps

abbrev pub same_codes : List ℕ → List ℕ → Bool
same_codes a b = is_prefix a b && is_prefix b a

-- `_KNOWN_INTERNAL_CASE`
abbrev pub known_folder : List ℕ → Option String
known_folder name =
    if same_codes name (codes "download")
    then some "Download"
    else if same_codes name (codes "documents")
    then some "Documents"
    else if same_codes name (codes "pictures")
    then some "Pictures"
    else if same_codes name (codes "dcim")
    then some "DCIM"
    else if same_codes name (codes "movies")
    then some "Movies"
    else none

abbrev pub known_case : List String → List String
known_case (a ∷ b ∷ rest) = elim (known_folder (lower b)) [
  | none ↦ a ∷ b ∷ rest
  | some folder ↦
      if same_codes (lower a) (codes "sdcard") then "sdcard" ∷ folder ∷ rest else a ∷ b ∷ rest
]
known_case ps = ps

abbrev pub is_hex : ℕ → Bool
is_hex c = (leb b'0' c && leb c b'9') || (leb b'A' c && leb c b'F') || (leb b'a' c && leb c b'f')

-- `[0-9A-Fa-f]{4}-[0-9A-Fa-f]{4}`
unfoldable pub is_volume : List ℕ → Bool
is_volume (a ∷ b ∷ c ∷ d ∷ dash ∷ e ∷ f ∷ g ∷ h ∷ []) =
    is_hex a
    && is_hex b
    && is_hex c
    && is_hex d
    && dash == b'-'
    && is_hex e
    && is_hex f
    && is_hex g
    && is_hex h
is_volume _ = false

-- `$` stands before a last line feed too, and `.` is no line feed.
abbrev pub has_line_feed : List Char → Bool
has_line_feed s = any (λ c. code c == 10) s

unfoldable pub without_last_feed : List Char → List Char
without_last_feed [] = []
without_last_feed (c ∷ s) = elim s [
  | [] ↦ if code c == 10 then [] else c ∷ []
  | d ∷ rest ↦ c ∷ without_last_feed s
]

abbrev pub is_tail : List Char → Bool
is_tail [] = true
is_tail (c ∷ s) = code c == b'/' && not (has_line_feed s)

-- The value where `^/mnt/media_rw/(volume)(/.*)?$` matches it.
unfoldable pub unmount : List Char → List Char
unfolding without_last_feed is_volume is_prefix chars
unmount value =
    let rest = drop 14 value in
    let tail = without_last_feed (drop 9 rest) in
    if is_prefix (codes "/mnt/media_rw/") (map code value)
      && is_volume (map code (take 9 rest))
      && is_tail tail
    then chars "/storage/" ++ take 9 rest ++ tail
    else value

abbrev pub is_refused : List Char → Bool
is_refused [] = true
is_refused (c ∷ s) = any (λ d. code d == 0 || code d == b'\\') (c ∷ s)

abbrev pub is_parent_part : String → Bool
is_parent_part part = str_eq part ".."

unfoldable pub canonicalize_android_path : String → Result Fault (List Char)
unfolding unmount slashed parts is_prefix chars lower_code
canonicalize_android_path path =
    let s = chars path in
    if is_refused s
    then err (validation "invalid Android path")
    else if not (is_absolute s) || any is_parent_part (parts s)
    then err (validation "Android path must be absolute and must not contain '..'")
    else if is_double s
    then ok ("/" ∷ absolute (parts s))
    else ok (unmount (absolute (known_case (unalias (parts s)))))

abbrev pub is_root_folder : String → Bool
is_root_folder b =
    str_eq b "Download"
    || str_eq b "Documents"
    || str_eq b "Pictures"
    || str_eq b "DCIM"
    || str_eq b "Movies"

-- `ANDROID_ALLOWED_ROOTS` and what is below them, and `_EXTERNAL_STORAGE_RE`.
abbrev pub is_internal : List String → Bool
is_internal (a ∷ b ∷ rest) = str_eq a "sdcard" && is_root_folder b
is_internal ps = false

unfoldable pub is_external : List Char → Bool
unfolding is_volume is_prefix
is_external s =
    let rest = drop 9 s in
    is_prefix (codes "/storage/") (map code s)
    && is_volume (map code (take 9 rest))
    && is_tail (drop 9 rest)

unfoldable pub is_allowed_android_path : List Char → Bool
unfolding parts
is_allowed_android_path s = (not (is_double s) && is_internal (parts s)) || is_external s

abbrev pub allowed : List Char → Result Fault String
allowed s =
    if is_allowed_android_path s
    then ok (of_chars s)
    else err (validation "Android path is outside the allowed shared-storage roots")

abbrev pub and_allowed : Result Fault (List Char) → Result Fault String
and_allowed (err f) = err f
and_allowed (ok s) = allowed s

-- With `require_allowed`, as every caller has it.
unfoldable pub normalize_android_path : String → Result Fault String
normalize_android_path path = and_allowed (canonicalize_android_path path)

abbrev pub is_root_parts : List String → Bool
is_root_parts (a ∷ b ∷ []) =
    (str_eq a "sdcard" && is_root_folder b) || (str_eq a "storage" && is_volume (codes b))
is_root_parts ps = false

unfoldable pub is_android_storage_root : String → Result Fault Bool
is_android_storage_root path = elim (normalize_android_path path) [
  | err f ↦ err f
  | ok s ↦ ok (is_root_parts (parts (chars s)))
]
