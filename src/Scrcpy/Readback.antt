-- ===== src/Scrcpy/Readback.antt =====
-- The scrcpy server sees the options that its arguments were built from.
use Prim.Native.Char.{Char}
use droid_web_display.Common.{
  ℕ, String, Bool, true, false, not, ◌&&◌, ◌≡◌, refl, ap, ◌∙◌, sym, Option, none, some, List, [],
  ◌==◌, str_eq, eq_iff, if◌then◌else◌, arith,
}
use droid_web_display.Common.Text.{chars}
use droid_web_display.Common.Integers.{ℤ, pos, negsuc, str_of}
use droid_web_display.Scrcpy.Options.{
  DisplayMode, physical, virtual, ImePolicy, default, local, fallback, hide, VirtualDisplayOptions,
  SessionOptions, is_flex,
}
use droid_web_display.Scrcpy.Command.{number, is_zero, is_default, display_size, ime_value}
use droid_web_display.Scrcpy.Understood.{
  read, value_of, Given, written, reading, virtual_given, all_given, flag, read-written,
}

-- The virtual display that is asked for.
abbrev pub wanted : DisplayMode → Option VirtualDisplayOptions → Option VirtualDisplayOptions
wanted physical v = none
wanted virtual v = v

abbrev wanted_text {ℓ} :
    {A : Type ℓ} → A → (VirtualDisplayOptions → A) → Option VirtualDisplayOptions → A
wanted_text d f none = d
wanted_text d f (some v) = f v

-- The server that reads these arguments, behind its version, with its own defaults sees these
-- options, and in physical mode a display of no size. A video option of zero stands for none.
pub record Understood (text : List Char) (o : SessionOptions) (w : Option VirtualDisplayOptions)
    (args : List (List Char)) : Type 0 where
  pub scid : read (chars "scid") [] args ≡ text
  pub log_level : read (chars "log_level") (chars "info") args ≡ chars o.log_level
  pub video : read (chars "video") (chars "true") args ≡ flag o.video
  pub audio : read (chars "audio") (chars "true") args ≡ flag o.audio
  pub control : read (chars "control") (chars "true") args ≡ flag o.control
  pub cleanup : read (chars "cleanup") (chars "true") args ≡ flag o.cleanup
  pub tunnel : read (chars "tunnel_forward") (chars "false") args ≡ chars "true"
  pub video_codec :
      read (chars "video_codec") (chars "h264") args
      ≡ (if o.video then chars o.video_codec else chars "h264")
  pub video_bit_rate :
      read (chars "video_bit_rate") (number 0) args
      ≡ (if o.video then number o.video_bit_rate else number 0)
  pub max_fps :
      read (chars "max_fps") (number 0) args ≡ (if o.video then number o.max_fps else number 0)
  pub audio_codec :
      read (chars "audio_codec") (chars "opus") args
      ≡ (if o.audio then chars o.audio_codec else chars "opus")
  pub audio_bit_rate : read (chars "audio_bit_rate") (number 128000) args ≡ (
      if o.audio && not (str_eq o.audio_codec "raw")
      then number o.audio_bit_rate
      else number 128000)
  pub max_size :
      read (chars "max_size") (str_of (pos 0)) args
      ≡ (if o.video then str_of o.max_size else str_of (pos 0))
  pub new_display : read (chars "new_display") [] args ≡ wanted_text [] display_size w
  pub flex_display :
      read (chars "flex_display") (chars "false") args
      ≡ wanted_text (chars "false") (λ v. flag (is_flex v)) w
  pub ime_policy :
      read (chars "display_ime_policy") (chars "default") args
      ≡ wanted_text (chars "default") (λ v. chars (ime_value v.ime_policy)) w
  pub destroy_content :
      read (chars "vd_destroy_content") (chars "true") args
      ≡ wanted_text (chars "true") (λ v. flag v.destroy_content_on_close) w
  pub decorations :
      read (chars "vd_system_decorations") (chars "true") args
      ≡ wanted_text (chars "true") (λ v. flag v.system_decorations) w
  pub keep_active :
      read (chars "keep_active") (chars "false") args
      ≡ wanted_text (chars "false") (λ v. flag v.keep_active) w

abbrev pub virtual_part : Option VirtualDisplayOptions → Given
virtual_part none = []
virtual_part (some v) = virtual_given v

-- All the arguments behind the version.
abbrev pub arguments : List Char → SessionOptions → Option VirtualDisplayOptions → List (List Char)
arguments text o w = written (all_given text o) (written (virtual_part w) [])

-- The server's reading, by the conditions of the arguments.
read-arguments :
    (k d text : List Char) (o : SessionOptions) (w : Option VirtualDisplayOptions)
    → read k d (arguments text o w)
      ≡ reading k d (all_given text o) (reading k d (virtual_part w) d)
unfolding read
read-arguments k d text o w =
    read-written k d (all_given text o) (written (virtual_part w) [])
    ∙ ap (reading k d (all_given text o)) (read-written k d (virtual_part w) [])

-- A value that is left out where it is the default reads as itself.
suppressed {ℓ} :
    {A : Type ℓ} (b same : Bool) (x y : A)
    → (same ≡ true → x ≡ y)
    → (if b && not same then x else y) ≡ (if b then x else y)
suppressed true true x y h = sym (h refl)
suppressed true false x y h = refl
suppressed false same x y h = refl

suppressed_text :
    (b : Bool) (s d : String)
    → (if b && not (str_eq s d) then chars s else chars d) ≡ (if b then chars s else chars d)
suppressed_text b s d =
    suppressed b (str_eq s d) (chars s) (chars d) (λ h. ap chars ((eq_iff s d).0 h))

same_number : (n k : ℕ) → (n == k) ≡ true → number n ≡ number k
same_number n k h = let e : n ≡ k = ground (arith, h) in ap number e

suppressed_number :
    (b : Bool) (n k : ℕ)
    → (if b && not (n == k) then number n else number k) ≡ (if b then number n else number k)
suppressed_number b n k = suppressed b (n == k) (number n) (number k) (same_number n k)

zero_text : (n : ℤ) → is_zero n ≡ true → str_of n ≡ str_of (pos 0)
zero_text (pos n) h = let e : n ≡ 0 = ground (arith, h) in ap (λ m. str_of (pos m)) e
zero_text (negsuc n) h = ground (arith, h)

rate_read :
    (b raw : Bool) (n k : ℕ)
    → (if b && not (n == k) && not raw then number n else number k)
      ≡ (if b && not raw then number n else number k)
rate_read true true n k = ground arith
rate_read true false n k = ground (arith, suppressed_number true n k)
rate_read false raw n k = refl

not-flag : (b : Bool) → (if not b then chars "false" else chars "true") ≡ flag b
not-flag true = refl
not-flag false = refl

ime_read :
    (p : ImePolicy)
    → (if not (is_default p) then chars (ime_value p) else chars "default") ≡ chars (ime_value p)
ime_read default = refl
ime_read local = refl
ime_read fallback = refl
ime_read hide = refl

module _ (text : List Char) (o : SessionOptions) where
  -- A key that no argument of a virtual display has.
  base_read :
      (k d : List Char) (w : Option VirtualDisplayOptions)
      → ((v : VirtualDisplayOptions) → reading k d (virtual_given v) d ≡ d)
      → read k d (arguments text o w) ≡ reading k d (all_given text o) d
  base_read k d none h = read-arguments k d text o none
  base_read k d (some v) h =
      read-arguments k d text o (some v) ∙ ap (reading k d (all_given text o)) (h v)

  -- A key that only an argument of a virtual display has.
  virtual_read :
      (k d : List Char) (f : VirtualDisplayOptions → List Char) (w : Option VirtualDisplayOptions)
      → ((x : List Char) → reading k d (all_given text o) x ≡ x)
      → ((v : VirtualDisplayOptions) → reading k d (virtual_given v) d ≡ f v)
      → read k d (arguments text o w) ≡ wanted_text d f w
  virtual_read k d f none h g = read-arguments k d text o none ∙ h d
  virtual_read k d f (some v) h g =
      read-arguments k d text o (some v) ∙ h (reading k d (virtual_given v) d) ∙ g v

  pub arguments-Understood :
      (w : Option VirtualDisplayOptions) → Understood text o w (arguments text o w)
  unfolding value_of chars
  arguments-Understood w = record {
    scid = base_read (chars "scid") [] w (λ v. refl);
    log_level = base_read (chars "log_level") (chars "info") w (λ v. refl);
    video = base_read (chars "video") (chars "true") w (λ v. refl) ∙ not-flag o.video;
    audio = base_read (chars "audio") (chars "true") w (λ v. refl) ∙ not-flag o.audio;
    control = base_read (chars "control") (chars "true") w (λ v. refl) ∙ not-flag o.control;
    cleanup = base_read (chars "cleanup") (chars "true") w (λ v. refl) ∙ not-flag o.cleanup;
    tunnel = base_read (chars "tunnel_forward") (chars "false") w (λ v. refl);
    video_codec =
        base_read (chars "video_codec") (chars "h264") w (λ v. refl)
        ∙ suppressed_text o.video o.video_codec "h264";
    video_bit_rate =
        base_read (chars "video_bit_rate") (number 0) w (λ v. refl)
        ∙ suppressed_number o.video o.video_bit_rate 0;
    max_fps =
        base_read (chars "max_fps") (number 0) w (λ v. refl)
        ∙ suppressed_number o.video o.max_fps 0;
    audio_codec =
        base_read (chars "audio_codec") (chars "opus") w (λ v. refl)
        ∙ suppressed_text o.audio o.audio_codec "opus";
    audio_bit_rate =
        base_read (chars "audio_bit_rate") (number 128000) w (λ v. refl)
        ∙ rate_read o.audio (str_eq o.audio_codec "raw") o.audio_bit_rate 128000;
    max_size =
        base_read (chars "max_size") (str_of (pos 0)) w (λ v. refl)
        ∙ suppressed o.video (is_zero o.max_size) (str_of o.max_size) (str_of (pos 0))
            (zero_text o.max_size);
    new_display = virtual_read (chars "new_display") [] display_size w (λ x. refl) (λ v. refl);
    flex_display =
        virtual_read (chars "flex_display") (chars "false") (λ v. flag (is_flex v)) w (λ x. refl)
          (λ v. refl);
    ime_policy =
        virtual_read (chars "display_ime_policy") (chars "default")
          (λ v. chars (ime_value v.ime_policy)) w (λ x. refl) (λ v. ime_read v.ime_policy);
    destroy_content =
        virtual_read (chars "vd_destroy_content") (chars "true")
          (λ v. flag v.destroy_content_on_close) w (λ x. refl)
          (λ v. not-flag v.destroy_content_on_close);
    decorations =
        virtual_read (chars "vd_system_decorations") (chars "true") (λ v. flag v.system_decorations)
          w (λ x. refl) (λ v. not-flag v.system_decorations);
    keep_active =
        virtual_read (chars "keep_active") (chars "false") (λ v. flag v.keep_active) w (λ x. refl)
          (λ v. refl);
  }
