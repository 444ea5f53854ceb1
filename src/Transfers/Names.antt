-- ===== src/Transfers/Names.antt =====
-- The file names that droid_web_display/transfers makes: numbered duplicates and partial files.
use Prim.Native.Char.{Char, code}
use droid_web_display.Common.{
  ℕ, String, ◌&&◌, Option, none, some, List, [], ◌∷◌, ◌++◌, ◌==◌, ltb, if◌then◌else◌, length,
}
use droid_web_display.Common.Text.{chars, of_chars, decimal}

-- What stands before the last occurrence of a character, and what follows from it.
unfoldable pub split_last : ℕ → List Char → Option (List Char × List Char)
split_last c [] = none
split_last c (d ∷ s) = elim (split_last c s) [
  | some (before, after) ↦ some (d ∷ before, after)
  | none ↦ if code d == c then some ([], d ∷ s) else none
]

-- The directory of a path with its slash, and the name.
abbrev pub directory_and_name : List Char → List Char × List Char
directory_and_name path = elim (split_last b'/' path) [
  | none ↦ ([], path)
  | some (directory, rest) ↦ elim rest [
    | [] ↦ (directory, [])
    | slash ∷ name ↦ (directory ++ slash ∷ [], name)
  ]
]

-- `pure.stem` and `pure.suffix`
abbrev pub stem_and_suffix : List Char → List Char × List Char
stem_and_suffix name = elim (split_last b'.' name) [
  | none ↦ (name, [])
  | some (stem, suffix) ↦
      if ltb 0 (length stem) && ltb 1 (length suffix) then (stem, suffix) else (name, [])
]

-- `pure.with_name(f"{stem} ({index}){suffix}")`
unfoldable pub numbered : String → ℕ → String
unfolding decimal split_last chars of_chars
numbered path index =
    let (directory, name) = directory_and_name (chars path) in
    let (stem, suffix) = stem_and_suffix name in
    of_chars (directory ++ stem ++ (" " ∷ "(" ∷ []) ++ decimal 5 index ++ (")" ∷ []) ++ suffix)

-- `str(pure.parent)` of a path that is absolute and is not the root
unfoldable pub parent : String → String
unfolding split_last chars of_chars
parent path = elim (split_last b'/' (chars path)) [
  | none ↦ "."
  | some (directory, rest) ↦ elim directory [ [] ↦ "/" | c ∷ s ↦ of_chars (c ∷ s) ]
]

-- `final.with_name(final.name + f".{transfer_id}.part")`
unfoldable pub partial_path : String → String → String
unfolding chars of_chars
partial_path final id =
    of_chars (chars final ++ ("." ∷ []) ++ chars id ++ ("." ∷ "p" ∷ "a" ∷ "r" ∷ "t" ∷ []))
