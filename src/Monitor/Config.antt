-- ===== src/Monitor/Config.antt =====
-- The configuration of droid_web_display/transfers/monitor.py, and its small rules.
use droid_web_display.Common.{
  ℕ, ◌*◌, ◌^◌, min, String, Bool, true, false, not, ◌&&◌, ◌||◌, Option, none, some, List, [], ◌∷◌,
  leb, str_eq, any, Result, ok, err,
}
use droid_web_display.Common.Text.{codes, lower, lower_code, is_prefix, is_suffix}
use droid_web_display.Transfers.Types.{Fault, validation}
use droid_web_display.Transfers.Paths.{normalize_android_path}
use droid_web_display.Monitor.Types.{
  Config, FileStatus, baseline, completed, failed, disappeared, deleted, processed,
  uploaded_from_pc,
}

-- An empty serial counts as none.
abbrev pub has_serial : Option String → Bool
has_serial none = false
has_serial (some s) = not (str_eq s "")

abbrev pub serial_or_empty : Option String → String
serial_or_empty none = ""
serial_or_empty (some s) = s

-- `config.active`
abbrev pub is_active : Config → Bool
is_active c = c.enabled || c.pc_to_android_enabled

abbrev pub check : Bool → String → Result Fault Config → Result Fault Config
check true message r = r
check false message r = err (validation message)

-- The checks of `validate` in its order, once the source is normal.
abbrev pub validated : Config → String → Result Fault Config
validated c source =
    check (not (is_active c) || has_serial c.serial)
      "automatic folder sync requires an Android device serial"
      (check (leb 1000 c.scan_interval && leb c.scan_interval 60000)
        "scan interval must be in range 1..60 seconds"
        (check (leb 1000 c.stability && leb c.stability 300000)
          "stability duration must be in range 1..300 seconds"
          (check (leb 2 c.stability_observations && leb c.stability_observations 20)
            "stability observations must be in range 2..20"
            (ok (record c { source_path = source })))))

unfoldable pub validate : Config → Result Fault Config
validate c = elim (normalize_android_path c.source_path) [
  | err f ↦ err f
  | ok source ↦ validated c source
]

-- `_retry_delay`
unfoldable pub retry_delay : ℕ → ℕ
retry_delay n = min 300000 (15000 * 2 ^ min n 4)

abbrev pub partial_suffixes : List String
partial_suffixes = ".part" ∷ ".partial" ∷ ".crdownload" ∷ ".download" ∷ ".tmp" ∷ ".temp" ∷ []

-- `_ignored`
unfoldable pub is_ignored : String → Bool
unfolding lower_code is_prefix is_suffix
is_ignored name =
    is_prefix (codes ".") (lower name)
    || any (λ s. is_suffix (codes s) (lower name)) partial_suffixes

-- `_SETTLED_OBSERVED_STATUSES`
abbrev pub is_settled : FileStatus → Bool
is_settled baseline = true
is_settled completed = true
is_settled failed = true
is_settled disappeared = true
is_settled deleted = true
is_settled processed = true
is_settled uploaded_from_pc = true
is_settled _ = false
