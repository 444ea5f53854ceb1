-- ===== src/Relay/Messages.antt =====
-- The messages that a browser sends to a control relay.
use mathlib.Core.List.{append_assoc}
use droid_web_display.Common.{
  ℕ, zero, ◌≤◌, ◌≡◌, refl, sym, ap, ◌∙◌, Option, none, some, List, [], ◌∷◌, ◌++◌, length, All,
}
use droid_web_display.Relay.Control.{Message, leaves, left, breaks, no_bytes, binary}

-- The binary messages among those of the browser, in their order.
abbrev pub messages : List Message → List (List ℕ)
messages [] = []
messages (binary bytes ∷ ms) = bytes ∷ messages ms
messages (leaves ∷ ms) = messages ms
messages (left ∷ ms) = messages ms
messages (breaks ∷ ms) = messages ms
messages (no_bytes ∷ ms) = messages ms

abbrev pub joined : List (List ℕ) → List ℕ
joined [] = []
joined (m ∷ ms) = m ++ joined ms

pub joined-append : (ms ns : List (List ℕ)) → joined (ms ++ ns) ≡ joined ms ++ joined ns
joined-append [] ns = refl
joined-append (m ∷ ms) ns =
    ap (λ x. m ++ x) (joined-append ms ns) ∙ sym (append_assoc m (joined ms) (joined ns))

pub All-append :
    (maximum : ℕ) (ms ns : List (List ℕ))
    → All (λ m. length m ≤ maximum) ms
    → All (λ m. length m ≤ maximum) ns
    → All (λ m. length m ≤ maximum) (ms ++ ns)
All-append maximum [] ns h k = k
All-append maximum (m ∷ ms) ns (l, h) k = (l, All-append maximum ms ns h k)

-- How many bytes are written whose drain is awaited.
abbrev pub undrained : Option (List ℕ) → ℕ
undrained none = zero
undrained (some bytes) = length bytes
