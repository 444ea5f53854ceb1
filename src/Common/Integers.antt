-- ===== src/Common/Integers.antt =====
-- Python's integers.
use Prim.Native.Nat.{ℕ, suc}
use Prim.Native.Char.{Char}
use mathlib.Core.Bool.{Bool, true, false}
use mathlib.Core.List.{List, ◌∷◌}
use droid_web_display.Common.Text.{decimal}

-- `-(n + 1)` is `negsuc n`.
pub data ℤ : Type 0 where
  pos : ℕ → ℤ
  negsuc : ℕ → ℤ

abbrev pub is_negative : ℤ → Bool
is_negative (pos n) = false
is_negative (negsuc n) = true

-- `str(n)`
unfoldable pub str_of : ℤ → List Char
unfolding decimal
str_of (pos n) = decimal (suc n) n
str_of (negsuc n) = "-" ∷ decimal (suc (suc n)) (suc n)
