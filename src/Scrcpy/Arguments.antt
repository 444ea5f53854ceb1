-- ===== src/Scrcpy/Arguments.antt =====
-- Which arguments are built, and what the scrcpy server makes of them.
use Prim.Native.Char.{Char}
use droid_web_display.Common.{
  ℕ, ◌<◌, String, ◌≡◌, refl, ap, ◌∙◌, Option, none, some, List, [], ◌∷◌, ◌++◌, ok, arith, lt→ltb,
}
use droid_web_display.Common.Text.{chars}
use droid_web_display.Common.Raises.{Result-cases}
use droid_web_display.Scrcpy.Options.{
  DisplayMode, physical, virtual, VirtualDisplayOptions, SessionOptions, validate, validate_display,
}
use droid_web_display.Scrcpy.Command.{
  argument, hex_digits, scid_text, display_arguments, base_arguments, build_server_arguments,
}
use droid_web_display.Scrcpy.Understood.{
  written, base_given, base-written, virtual-written, written-append,
}
use droid_web_display.Scrcpy.Readback.{
  wanted, virtual_part, arguments, Understood, arguments-Understood,
}

-- The modes and displays that `validate` accepts together.
display_written :
    (m : DisplayMode) (w : Option VirtualDisplayOptions) (o : SessionOptions)
    → validate_display o m w ≡ ok tt
    → display_arguments m w ≡ ok (written (virtual_part (wanted m w)) [])
display_written physical w o h = refl
display_written virtual (some v) o h = ap ok (virtual-written v)
display_written virtual none o h = ground (arith, h)

validate-display :
    (o : SessionOptions)
    → validate o ≡ ok tt
    → validate_display o o.display_mode o.virtual_display ≡ ok tt
unfolding validate
validate-display o h =
    ground (arith, h, Result-cases (validate_display o o.display_mode o.virtual_display))

built :
    (version : String) (scid : ℕ) (o : SessionOptions)
    → validate o ≡ ok tt
    → scid < 4294967296
    → build_server_arguments version scid o
      ≡ ok (
          chars version ∷ arguments (hex_digits 8 scid) o (wanted o.display_mode o.virtual_display))
unfolding build_server_arguments scid_text
built version scid o h l =
    let w = wanted o.display_mode o.virtual_display in
    let rest = written (virtual_part w) [] in
    let more : base_arguments o ++ rest ≡ written (base_given o) rest =
      ap (λ x. x ++ rest) (base-written o) ∙ written-append (base_given o) rest in
    rw
      (
        h,
        lt→ltb scid 4294967296 l,
        display_written o.display_mode o.virtual_display o (validate-display o h),
      )
      (ap
        (λ x. ok (
          chars version
          ∷ argument "scid" (hex_digits 8 scid)
          ∷ argument "log_level" (chars o.log_level)
          ∷ x))
        more)

-- The arguments of valid options can be built for every identifier of 32 bits, and the server that
-- reads them behind its version, with its own defaults for what is left out, sees the options that
-- they were built from: the identifier in hexadecimal, the log level, which channels it is to open,
-- the codecs and rates of those that it opens, and the virtual display where that is the mode. An
-- audio rate is not given to the raw codec.
pub build_server_arguments-Understood :
    (version : String) (scid : ℕ) (o : SessionOptions)
    → validate o ≡ ok tt
    → scid < 4294967296
    → (args : List (List Char)) × (build_server_arguments version scid o
        ≡ ok (chars version ∷ args))
      × Understood (hex_digits 8 scid) o (wanted o.display_mode o.virtual_display) args
build_server_arguments-Understood version scid o h l =
    let w = wanted o.display_mode o.virtual_display in
    (
      arguments (hex_digits 8 scid) o w,
      built version scid o h l,
      arguments-Understood (hex_digits 8 scid) o w,
    )
