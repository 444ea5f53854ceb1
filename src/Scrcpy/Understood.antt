-- ===== src/Scrcpy/Understood.antt =====
-- What the scrcpy server reads of its arguments.
use Prim.Native.Char.{Char, code}
use mathlib.Core.List.{append_assoc, append-nil}
use droid_web_display.Common.{
  String, Bool, true, false, not, ◌&&◌, ◌≡◌, refl, ap, ◌∙◌, Option, none, some, List, [], ◌∷◌, ◌++◌,
  ◌==◌, str_eq, if◌then◌else◌, arith, Option-cases,
}
use droid_web_display.Common.Text.{chars}
use droid_web_display.Common.Integers.{str_of}
use droid_web_display.Scrcpy.Options.{VirtualDisplayOptions, SessionOptions, is_flex}
use droid_web_display.Scrcpy.Command.{
  argument, add_if, number, is_zero, is_default, display_size, ime_value, virtual_arguments,
  base_arguments,
}

-- The value of an argument that has the key.
unfoldable pub value_of : List Char → List Char → Option (List Char)
value_of k [] = none
value_of [] (c ∷ s) = if code c == b'=' then some s else none
value_of (b ∷ k) (c ∷ s) = let rest = value_of k s in if code b == code c then rest else none

-- The value of a key in the arguments, or the server's default.
unfoldable pub read : List Char → List Char → List (List Char) → List Char
unfolding value_of
read k d [] = d
read k d (a ∷ rest) =
    let next = read k d rest in elim (value_of k a) [ some value ↦ value | none ↦ next ]

-- The same of the conditions under which each argument is given.
abbrev pub Given : Type 0
Given = List (Bool × String × List Char)

abbrev pub written : Given → List (List Char) → List (List Char)
written [] rest = rest
written ((b, key, value) ∷ gs) rest = add_if b key value ++ written gs rest

abbrev pub found : Option (List Char) → Bool → List Char → List Char
found none b next = next
found (some value) b next = if b then value else next

abbrev pub reading : List Char → List Char → Given → List Char → List Char
reading k d [] next = next
reading k d ((b, key, value) ∷ gs) next =
    found (value_of k (argument key value)) b (reading k d gs next)

pub read-written :
    (k d : List Char) (gs : Given) (rest : List (List Char))
    → read k d (written gs rest) ≡ reading k d gs (read k d rest)
unfolding read
read-written k d [] rest = refl
read-written k d ((true, key, value) ∷ gs) rest =
    ground (arith, read-written k d gs rest, Option-cases (value_of k (argument key value)))
read-written k d ((false, key, value) ∷ gs) rest =
    ground (arith, read-written k d gs rest, Option-cases (value_of k (argument key value)))

abbrev pub base_given : SessionOptions → Given
base_given o =
    (not o.video, "video", chars "false")
    ∷ (o.video && not (o.video_bit_rate == 0), "video_bit_rate", number o.video_bit_rate)
    ∷ (not o.audio, "audio", chars "false")
    ∷ (o.audio && not (str_eq o.audio_codec "opus"), "audio_codec", chars o.audio_codec)
    ∷ (
      o.audio && not (o.audio_bit_rate == 128000) && not (str_eq o.audio_codec "raw"),
      "audio_bit_rate",
      number o.audio_bit_rate,
    )
    ∷ (o.video && not (str_eq o.video_codec "h264"), "video_codec", chars o.video_codec)
    ∷ (o.video && not (is_zero o.max_size), "max_size", str_of o.max_size)
    ∷ (o.video && not (o.max_fps == 0), "max_fps", number o.max_fps)
    ∷ (true, "tunnel_forward", chars "true")
    ∷ (not o.control, "control", chars "false")
    ∷ (not o.cleanup, "cleanup", chars "false")
    ∷ []

abbrev pub virtual_given : VirtualDisplayOptions → Given
virtual_given v =
    (true, "new_display", display_size v)
    ∷ (is_flex v, "flex_display", chars "true")
    ∷ (not (is_default v.ime_policy), "display_ime_policy", chars (ime_value v.ime_policy))
    ∷ (not v.destroy_content_on_close, "vd_destroy_content", chars "false")
    ∷ (not v.system_decorations, "vd_system_decorations", chars "false")
    ∷ (v.keep_active, "keep_active", chars "true")
    ∷ []

abbrev pub all_given : List Char → SessionOptions → Given
all_given scid o = (true, "scid", scid) ∷ (true, "log_level", chars o.log_level) ∷ base_given o

pub base-written : (o : SessionOptions) → base_arguments o ≡ written (base_given o) []
unfolding base_arguments
base-written o = rw (append-nil (add_if (not o.cleanup) "cleanup" (chars "false"))) refl

pub virtual-written :
    (v : VirtualDisplayOptions) → virtual_arguments v ≡ written (virtual_given v) []
unfolding virtual_arguments
virtual-written v = rw (append-nil (add_if v.keep_active "keep_active" (chars "true"))) refl

pub written-append :
    (gs : Given) (rest : List (List Char)) → written gs [] ++ rest ≡ written gs rest
written-append [] rest = refl
written-append ((b, key, value) ∷ gs) rest =
    append_assoc (add_if b key value) (written gs []) rest
    ∙ ap (λ x. add_if b key value ++ x) (written-append gs rest)

abbrev pub flag : Bool → List Char
flag b = if b then chars "true" else chars "false"
