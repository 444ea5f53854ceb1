-- ===== src/Transfers/Destinations.antt =====
-- Where downloads go, in droid_web_display/transfers/manager.py: profiles and custom folders.
use droid_web_display.Common.{
  String, Bool, false, not, Option, none, some, List, [], ◌∷◌, any, str_eq, if◌then◌else◌, Dict,
  lookup, Result, ok, err,
}
use droid_web_display.Common.Text.{chars, codes, lower}
use droid_web_display.Transfers.Types.{Fault, validation}
use droid_web_display.Transfers.Paths.{parts, same_codes}

-- The PC's folders: the profiles, where `expanduser` and `resolve` lead (`none` where that is not
-- absolute), and what stands there without being a folder.
pub record Folders : Type 0 where
  pub profiles : Dict String
  pub resolved : String → Option String
  pub is_other : String → Bool

-- `_AUTORUN_DIRECTORY_NAMES` and `_SYSTEM_ROOT_NAMES`
abbrev pub autorun_directory_names : List String
autorun_directory_names =
    "autostart" ∷ "cron.d" ∷ "cron.daily" ∷ "cron.hourly" ∷ "cron.monthly" ∷ "cron.weekly"
    ∷ "init.d" ∷ "systemd" ∷ "launchagents" ∷ "launchdaemons" ∷ "startup" ∷ "start menu" ∷ ".ssh"
    ∷ ".gnupg" ∷ []

abbrev pub system_root_names : List String
system_root_names =
    "etc" ∷ "boot" ∷ "bin" ∷ "sbin" ∷ "lib" ∷ "lib64" ∷ "usr" ∷ "proc" ∷ "sys" ∷ "var" ∷ "windows"
    ∷ "winnt" ∷ "program files" ∷ "program files (x86)" ∷ "programdata"
    ∷ "system volume information" ∷ []

abbrev pub is_named : List String → String → Bool
is_named names part = any (λ name. same_codes (lower part) (codes name)) names

abbrev pub is_system_root : List String → Bool
is_system_root [] = false
is_system_root (part ∷ rest) = is_named system_root_names part

-- `_assert_destination_allowed`, of an absolute path with its anchor `/`
unfoldable pub assert_destination_allowed : String → Result Fault String
assert_destination_allowed path =
    if any (is_named autorun_directory_names) (parts (chars path))
    then err (validation "custom destination is a startup or system folder")
    else if is_system_root (parts (chars path))
    then err (validation "custom destination is a system folder")
    else ok path

unfoldable pub custom_destination : Folders → String → Result Fault String
custom_destination d destination = elim (d.resolved destination) [
  | none ↦ err (validation "custom destination must be an absolute PC path")
  | some path ↦
      if d.is_other path
      then err (validation "custom destination is not a folder")
      else assert_destination_allowed path
]

unfoldable pub profile : Folders → String → Result Fault String
profile d id = elim (lookup id d.profiles) [
  | none ↦ err (validation "unknown destination profile")
  | some path ↦ ok path
]

-- An empty path counts as no path.
abbrev pub is_custom : Option String → Bool
is_custom none = false
is_custom (some path) = not (str_eq path "")

abbrev pub destination_folder : Folders → String → Option String → Result Fault String
destination_folder d id none = profile d id
destination_folder d id (some path) =
    if str_eq path "" then profile d id else custom_destination d path
