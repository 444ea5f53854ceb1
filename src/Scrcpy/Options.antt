-- ===== src/Scrcpy/Options.antt =====
-- droid_web_display/models.py: the options of a scrcpy session and their validation.
use Prim.Native.String.{◌++◌ as ◌<>◌}
use droid_web_display.Common.{
  ℕ, zero, suc, String, Bool, true, false, not, ◌&&◌, ◌||◌, Option, none, some, List, [], ◌∷◌, ◌++◌,
  leb, ◌==◌, str_eq, if◌then◌else◌, Result, ok, err,
}
use droid_web_display.Common.Text.{codes}
use droid_web_display.Common.Integers.{ℤ, is_negative}

pub data ChannelName : Type 0 where
  video audio control : ChannelName

pub data DisplayMode : Type 0 where
  physical virtual : DisplayMode

pub data SizeMode : Type 0 where
  fixed flex : SizeMode

pub data ImePolicy : Type 0 where
  default local fallback hide : ImePolicy

-- The `ValueError`s of the two `validate` methods, in the order of the source.
pub data Invalid : Type 0 where
  bad_width bad_height bad_dpi not_uint16 bad_package no_start_app bad_profile : Invalid
  no_channel bad_audio_codec bad_audio_rate bad_video_codec bad_max_size bad_video_rate : Invalid
  bad_fps virtual_needs_channels no_virtual_display : Invalid

pub record VirtualDisplayOptions : Type 0 where
  pub profile_id : String
  pub size_mode : SizeMode
  pub width : ℕ
  pub height : ℕ
  pub dpi : ℕ
  pub start_app : String
  pub force_stop_before_launch : Bool
  pub keep_active : Bool
  pub system_decorations : Bool
  pub destroy_content_on_close : Bool
  pub ime_policy : ImePolicy
  pub preserve_aspect_ratio : Bool

pub record SessionOptions : Type 0 where
  pub video : Bool
  pub audio : Bool
  pub control : Bool
  pub audio_codec : String
  pub audio_bit_rate : ℕ
  pub video_codec : String
  pub max_size : ℤ
  pub video_bit_rate : ℕ
  pub max_fps : ℕ
  pub log_level : String
  pub cleanup : Bool
  pub display_mode : DisplayMode
  pub virtual_display : Option VirtualDisplayOptions

abbrev pub is_letter : ℕ → Bool
is_letter c = (leb b'a' c && leb c b'z') || (leb b'A' c && leb c b'Z')

abbrev pub is_digit : ℕ → Bool
is_digit c = leb b'0' c && leb c b'9'

abbrev pub is_word : ℕ → Bool
is_word c = is_letter c || is_digit c || c == b'_'

-- `[a-zA-Z][a-zA-Z0-9_]*(\.[a-zA-Z][a-zA-Z0-9_]*)+`, matched whole: `inside` a segment or at the
-- start of one, with or without a dot before.
unfoldable pub package_rest : Bool → Bool → List ℕ → Bool
package_rest inside dotted [] = inside && dotted
package_rest inside dotted (c ∷ cs) =
    let next = package_rest (not (c == b'.')) (dotted || c == b'.') cs in
    if inside then (is_word c || c == b'.') && next else is_letter c && next

unfoldable pub is_package : String → Bool
unfolding package_rest
is_package s = package_rest false false (codes s)

abbrev pub is_slug : ℕ → Bool
is_slug c = (leb b'a' c && leb c b'z') || is_digit c

-- `[a-z0-9-]{0,n}`, matched whole.
unfoldable pub slug_rest : ℕ → List ℕ → Bool
slug_rest n [] = true
slug_rest zero (c ∷ cs) = false
slug_rest (suc n) (c ∷ cs) = (is_slug c || c == b'-') && slug_rest n cs

unfoldable pub slug_codes : List ℕ → Bool
unfolding slug_rest
slug_codes [] = false
slug_codes (c ∷ cs) = is_slug c && slug_rest 63 cs

unfoldable pub is_profile_id : String → Bool
unfolding slug_codes
is_profile_id s = slug_codes (codes s)

abbrev pub between : ℕ → ℕ → ℕ → Bool
between lo hi n = leb lo n && leb n hi

-- `raise` unless the test holds.
abbrev pub check : Bool → Invalid → Result Invalid (Unit {0}) → Result Invalid (Unit {0})
check true e rest = rest
check false e rest = err e

unfoldable pub validate_virtual : VirtualDisplayOptions → Result Invalid (Unit {0})
validate_virtual v = check (between 640 3840 v.width) bad_width (
    check (between 480 2160 v.height) bad_height (
      check (between 120 640 v.dpi) bad_dpi (
        check (leb v.width 0xFFFF && leb v.height 0xFFFF) not_uint16 (
          check (str_eq v.start_app "" || is_package v.start_app) bad_package (
            check (not (str_eq v.start_app "") || v.system_decorations) no_start_app
              (check (is_profile_id v.profile_id) bad_profile (ok tt)))))))

abbrev pub is_flex : VirtualDisplayOptions → Bool
is_flex v = elim v.size_mode [ flex ↦ true | fixed ↦ false ]

unfoldable pub start_app_payload : VirtualDisplayOptions → String
start_app_payload v =
    if str_eq v.start_app ""
    then ""
    else if v.force_stop_before_launch
    then "+" <> v.start_app
    else v.start_app

-- The last part of `SessionOptions.validate`.
abbrev pub validate_display :
    SessionOptions → DisplayMode → Option VirtualDisplayOptions → Result Invalid (Unit {0})
validate_display o virtual none =
    check (o.video && o.control) virtual_needs_channels (err no_virtual_display)
validate_display o virtual (some v) =
    check (o.video && o.control) virtual_needs_channels (validate_virtual v)
validate_display o physical none = ok tt
validate_display o physical (some v) = validate_virtual v

abbrev pub is_audio_codec : String → Bool
is_audio_codec s = str_eq s "opus" || str_eq s "aac" || str_eq s "flac" || str_eq s "raw"

abbrev pub is_video_codec : String → Bool
is_video_codec s = str_eq s "h264" || str_eq s "h265" || str_eq s "av1"

unfoldable pub validate : SessionOptions → Result Invalid (Unit {0})
validate o = check (o.video || o.audio || o.control) no_channel (
    check (is_audio_codec o.audio_codec) bad_audio_codec (
      check (between 16000 512000 o.audio_bit_rate) bad_audio_rate (
        check (is_video_codec o.video_codec) bad_video_codec (
          check (not (is_negative o.max_size)) bad_max_size (
            check (between 2000000 50000000 o.video_bit_rate) bad_video_rate (
              check (between 15 120 o.max_fps) bad_fps
                (validate_display o o.display_mode o.virtual_display)))))))

abbrev pub channel_if : Bool → ChannelName → List ChannelName
channel_if b name = if b then name ∷ [] else []

unfoldable pub ordered_channels : SessionOptions → List ChannelName
ordered_channels o =
    channel_if o.video video ++ (channel_if o.audio audio ++ channel_if o.control control)
