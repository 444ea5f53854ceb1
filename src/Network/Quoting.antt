-- ===== src/Network/Quoting.antt =====
-- The rule's name stays inside its quotes.
use Prim.Native.Char.{Char, code}
use mathlib.Core.List.{append_assoc}
use droid_web_display.Common.{
  Bool, true, false, ◌&&◌, ◌||◌, leb, any, ◌≡◌, refl, ap, drop, inl, inr, List, [], ◌∷◌, ◌++◌, ◌==◌,
  if◌then◌else◌, arith, Bool-cases,
}
use droid_web_display.Common.Text.{chars}
use droid_web_display.Network.Types.{NetworkAccessConfig}
use droid_web_display.Network.Firewall.{
  escaped, head_text, remove_text, create_text, port_text, remotes, remove_command, create_command,
}

-- The quotes of another shape that PowerShell takes for a single quote: ‘ ’ ‚ and ‛.
abbrev pub is_typographic : Char → Bool
is_typographic c = leb 0x2018 (code c) && leb (code c) 0x201b

abbrev is_quote : Char → Bool
is_quote c = code c == 39 || is_typographic c

-- What PowerShell reads of a literal behind its opening quote, and what follows the literal. Two
-- quotes stand for one.
unfoldable pub read_literal : Bool → List Char → List Char × List Char
read_literal quoted [] = ([], [])
read_literal false (c ∷ s) =
    let (t, rest) = read_literal false s in
    let after = read_literal true s in if is_quote c then after else (c ∷ t, rest)
read_literal true (c ∷ s) =
    let (t, rest) = read_literal false s in if is_quote c then (c ∷ t, rest) else ([], c ∷ s)

-- The text does not start with a quote.
abbrev Unquoted : List Char → Type 0
Unquoted [] = Unit
Unquoted (c ∷ s) = is_quote c ≡ false

read_literal-close : (s : List Char) → Unquoted s → read_literal true s ≡ ([], s)
unfolding read_literal
read_literal-close [] u = refl
read_literal-close (c ∷ s) u = ground (arith, u)

read_literal-escaped :
    (s rest : List Char)
    → any is_typographic s ≡ false
    → Unquoted rest
    → read_literal false (escaped s ++ "'" ∷ rest) ≡ (s, rest)
unfolding read_literal escaped
read_literal-escaped [] rest h u = read_literal-close rest u
read_literal-escaped (c ∷ s) rest h u = elim (Bool-cases (code c == 39)) [
  | inl q ↦ rw (q) (ground (arith, q, h, read_literal-escaped s rest (ground (arith, h)) u))
  | inr q ↦ rw (q) (ground (arith, q, h, read_literal-escaped s rest (ground (arith, h)) u))
]

-- Read as PowerShell reads it, the command that makes the rule asks twice for the configured name,
-- to remove the old rule and to name the new one, where the name has none of the quotes ‘ ’ ‚ and
-- ‛, and nothing of the name is left over for the shell.
pub create_command-read_literal :
    (c : NetworkAccessConfig)
    → any is_typographic (chars c.firewall.rule_name) ≡ false
    → (old new : List Char) × (create_command c ≡ head_text ++ old)
      × (read_literal false old
          ≡ (chars c.firewall.rule_name, drop 1 remove_text ++ (create_text ++ new)))
      × (read_literal false new ≡ (chars c.firewall.rule_name, drop 1 port_text ++ remotes c))
unfolding create_command remove_command chars
create_command-read_literal c plain =
    let name = chars c.firewall.rule_name in
    let new = escaped name ++ (port_text ++ remotes c) in
    (
      escaped name ++ (remove_text ++ (create_text ++ new)),
      new,
      ap (λ s. head_text ++ s) (append_assoc (escaped name) remove_text (create_text ++ new)),
      read_literal-escaped name (drop 1 remove_text ++ (create_text ++ new)) plain refl,
      read_literal-escaped name (drop 1 port_text ++ remotes c) plain refl,
    )
