-- ===== src/Common/Json.antt =====
-- The values that `json.loads` returns, and Python's conversions of them.
use Prim.Native.Nat.{zero, suc}
use Prim.Native.Char.{Char}
use Prim.Native.String.{String}
use mathlib.Core.Bool.{Bool, true, false, not}
use mathlib.Core.Option.{Option, none, some}
use mathlib.Core.List.{List, [], ◌∷◌, map}
use droid_web_display.Common.Tests.{str_eq, if◌then◌else◌}
use droid_web_display.Common.Methods.{Result, ok, err}
use droid_web_display.Common.Text.{chars, of_chars}
use droid_web_display.Common.Integers.{ℤ, pos, negsuc}

mutual
  pub data Json : Type 0 where
    null : Json
    boolean : Bool → Json
    integer : ℤ → Json
    real : String → Json
    text : String → Json
    array : Items → Json
    object : Fields → Json

  pub data Items : Type 0 where
    nothing : Items
    item : Json → Items → Items

  pub data Fields : Type 0 where
    end : Fields
    field : String → Json → Fields → Fields

-- The exceptions of the conversions.
pub data Misfit : Type 0 where
  type_error value_error attribute_error : Misfit

-- Conversions that this development does not compute: `int` of texts and floats, `str` of anything
-- but texts, and the truth of floats.
pub record Conversions : Type 0 where
  pub int_of_text : String → Result Misfit ℤ
  pub int_of_real : String → Result Misfit ℤ
  pub text_of : Json → String
  pub real_truth : String → Bool

-- `value.get(key)` of a dictionary
unfoldable pub get : String → Fields → Option Json
get key end = none
get key (field k v fs) = if str_eq k key then some v else get key fs

-- `value.get(key, default)`
abbrev pub get_or : String → Json → Fields → Json
get_or key default fs = elim (get key fs) [ none ↦ default | some v ↦ v ]

-- `bool(value)`
unfoldable pub truth : Conversions → Json → Bool
truth c null = false
truth c (boolean b) = b
truth c (integer (pos zero)) = false
truth c (integer (pos (suc n))) = true
truth c (integer (negsuc n)) = true
truth c (real r) = c.real_truth r
truth c (text s) = not (str_eq s "")
truth c (array nothing) = false
truth c (array (item v vs)) = true
truth c (object end) = false
truth c (object (field k v fs)) = true

-- `int(value)`
unfoldable pub int : Conversions → Json → Result Misfit ℤ
int c (boolean true) = ok (pos 1)
int c (boolean false) = ok (pos 0)
int c (integer n) = ok n
int c (real r) = c.int_of_real r
int c (text s) = c.int_of_text s
int c null = err type_error
int c (array vs) = err type_error
int c (object fs) = err type_error

-- `str(value)`
unfoldable pub str : Conversions → Json → String
str c (text s) = s
str c v = c.text_of v

unfoldable pub items_of : Items → List Json
items_of nothing = []
items_of (item v vs) = v ∷ items_of vs

unfoldable pub keys_of : Fields → List Json
keys_of end = []
keys_of (field k v fs) = text k ∷ keys_of fs

abbrev letter : Char → Json
letter c = text (of_chars (c ∷ []))

-- `for item in value`
unfoldable pub iterate : Json → Result Misfit (List Json)
unfolding items_of keys_of chars of_chars
iterate (array vs) = ok (items_of vs)
iterate (object fs) = ok (keys_of fs)
iterate (text s) = ok (map letter (chars s))
iterate v = err type_error

-- `value or {}`, then `.get`
unfoldable pub fields_or_empty : Conversions → Json → Result Misfit Fields
unfolding truth
fields_or_empty c (object fs) = ok fs
fields_or_empty c v = if truth c v then err attribute_error else ok end

-- A list of texts as a JSON array.
unfoldable pub texts : List String → Items
texts [] = nothing
texts (s ∷ ss) = item (text s) (texts ss)

abbrev pub text_or_null : Option String → Json
text_or_null none = null
text_or_null (some s) = text s
