-- ===== src/Scrcpy/Command.antt =====
-- droid_web_display/scrcpy/command.py: the arguments of the scrcpy server, each as its characters.
use Prim.Native.Char.{Char}
use droid_web_display.Common.{
  ℕ, zero, suc, ◌/◌, ◌%◌, String, Bool, true, false, not, ◌&&◌, Option, none, some, List, [], ◌∷◌,
  ◌++◌, ◌==◌, leb, ltb, str_eq, if◌then◌else◌, Result, ok, err,
}
use droid_web_display.Common.Text.{chars, decimal, digit}
use droid_web_display.Common.Integers.{ℤ, pos, negsuc, str_of}
use droid_web_display.Common.Raises.{◌>>=◌, ◌>>◌}
use droid_web_display.Scrcpy.Options.{
  DisplayMode, physical, virtual, ImePolicy, default, local, fallback, hide, Invalid,
  VirtualDisplayOptions, SessionOptions, is_flex, validate,
}

-- The `ValueError`s of the options and of the identifier, and the failed assertion.
pub data ArgumentError : Type 0 where
  invalid : Invalid → ArgumentError
  bad_scid no_virtual : ArgumentError

abbrev pub hex_digit : ℕ → Char
hex_digit n =
    if ltb n 10
    then digit n
    else if n == 10
    then "a"
    else if n == 11
    then "b"
    else if n == 12
    then "c"
    else if n == 13
    then "d"
    else if n == 14
    then "e"
    else "f"

-- The last digits of a number in base 16, as many as are asked for.
unfoldable pub hex_digits : ℕ → ℕ → List Char
hex_digits zero n = []
hex_digits (suc k) n = let rest = hex_digits k (n / 16) in rest ++ hex_digit (n % 16) ∷ []

-- `f"{scid:08x}"`, which is longer than the pattern allows from 2 ^ 32 on
unfoldable pub scid_text : ℕ → Result ArgumentError (List Char)
unfolding hex_digits
scid_text scid = if ltb scid 4294967296 then ok (hex_digits 8 scid) else err bad_scid

unfoldable pub socket_name : ℕ → Result ArgumentError (List Char)
unfolding hex_digits chars
socket_name scid =
    if leb scid 0x7FFFFFFF then ok (chars "scrcpy_" ++ hex_digits 8 scid) else err bad_scid

-- `f"{key}={value}"`
abbrev pub argument : String → List Char → List Char
argument key value = chars key ++ "=" ∷ value

-- `args.append(...)` under a condition
abbrev pub add_if : Bool → String → List Char → List (List Char)
add_if b key value = if b then argument key value ∷ [] else []

abbrev pub number : ℕ → List Char
number n = decimal (suc n) n

abbrev pub is_zero : ℤ → Bool
is_zero (pos n) = n == 0
is_zero (negsuc n) = false

abbrev pub ime_value : ImePolicy → String
ime_value default = "default"
ime_value local = "local"
ime_value fallback = "fallback"
ime_value hide = "hide"

abbrev pub is_default : ImePolicy → Bool
is_default default = true
is_default local = false
is_default fallback = false
is_default hide = false

-- `f"{width}x{height}/{dpi}"`
abbrev pub display_size : VirtualDisplayOptions → List Char
display_size v = number v.width ++ "x" ∷ (number v.height ++ "/" ∷ number v.dpi)

unfoldable pub virtual_arguments : VirtualDisplayOptions → List (List Char)
unfolding chars decimal
virtual_arguments v =
    add_if true "new_display" (display_size v)
    ++ (add_if (is_flex v) "flex_display" (chars "true")
        ++ (add_if (not (is_default v.ime_policy)) "display_ime_policy"
              (chars (ime_value v.ime_policy))
            ++ (add_if (not v.destroy_content_on_close) "vd_destroy_content" (chars "false")
                ++ (add_if (not v.system_decorations) "vd_system_decorations" (chars "false")
                    ++ add_if v.keep_active "keep_active" (chars "true")))))

abbrev pub display_arguments :
    DisplayMode → Option VirtualDisplayOptions → Result ArgumentError (List (List Char))
display_arguments physical v = ok []
display_arguments virtual none = err no_virtual
display_arguments virtual (some v) = ok (virtual_arguments v)

-- The arguments before those of a virtual display.
unfoldable pub base_arguments : SessionOptions → List (List Char)
unfolding chars decimal str_of
base_arguments o =
    add_if (not o.video) "video" (chars "false")
    ++ (add_if (o.video && not (o.video_bit_rate == 0)) "video_bit_rate" (number o.video_bit_rate)
        ++ (add_if (not o.audio) "audio" (chars "false")
            ++ (add_if (o.audio && not (str_eq o.audio_codec "opus")) "audio_codec"
                  (chars o.audio_codec)
                ++ (add_if
                      (o.audio
                        && not (o.audio_bit_rate == 128000)
                        && not (str_eq o.audio_codec "raw"))
                      "audio_bit_rate" (number o.audio_bit_rate)
                    ++ (add_if (o.video && not (str_eq o.video_codec "h264")) "video_codec"
                          (chars o.video_codec)
                        ++ (add_if (o.video && not (is_zero o.max_size)) "max_size"
                              (str_of o.max_size)
                            ++ (add_if (o.video && not (o.max_fps == 0)) "max_fps"
                                  (number o.max_fps)
                                ++ (add_if true "tunnel_forward" (chars "true")
                                    ++ (add_if (not o.control) "control" (chars "false")
                                        ++ add_if (not o.cleanup) "cleanup" (chars "false"))))))))))

abbrev pub checked : Result Invalid (Unit {0}) → Result ArgumentError (Unit {0})
checked (ok u) = ok u
checked (err e) = err (invalid e)

unfoldable pub build_server_arguments :
    String → ℕ → SessionOptions → Result ArgumentError (List (List Char))
unfolding validate scid_text base_arguments virtual_arguments chars
build_server_arguments version scid o = do
  checked (validate o)
  text ← scid_text scid
  display ← display_arguments o.display_mode o.virtual_display
  ok (
      chars version
      ∷ argument "scid" text
      ∷ argument "log_level" (chars o.log_level)
      ∷ (base_arguments o ++ display))
