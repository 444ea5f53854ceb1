-- ===== src/Monitor/Trim.antt =====
-- How the tables of droid_web_display/transfers/monitor.py are bounded.
use droid_web_display.Common.{ℕ, Bool, List, leb, ltb, length, take, keep, if◌then◌else◌}
use droid_web_display.Common.Sort.{sort}
use droid_web_display.Common.Retain.{without, stale}
use droid_web_display.Monitor.Types.{Watched, Handled, Folder, Memory}
use droid_web_display.Monitor.Config.{is_settled}
use droid_web_display.Monitor.Observe.{path_of}

abbrev pub max_settled : ℕ
max_settled = 500

abbrev pub max_handled : ℕ
max_handled = 5000

abbrev pub settles : Watched → Bool
settles o = is_settled o.status

abbrev pub changed_before : Watched → Watched → Bool
changed_before a b = leb a.last_changed_at b.last_changed_at

-- `_keep_recent`
unfoldable pub keep_recent : List Watched → List Watched
keep_recent os =
    if leb (length (keep settles os)) max_settled
    then os
    else without path_of (stale path_of settles changed_before max_settled os) os

-- The newest of the handled fingerprints, where there are too many.
unfoldable pub trim_handled : List Handled → List Handled
trim_handled hs =
    if ltb max_handled (length hs)
    then take max_handled (sort (λ a b. leb b.since a.since) hs)
    else hs

abbrev pub trim_folder : Folder → Folder
trim_folder f = record f { handled = trim_handled f.handled; observed = keep_recent f.observed }

-- `_trim_processed`
unfoldable pub trim_processed : Memory → Memory
trim_processed m = record m { android = trim_folder m.android; pc = trim_folder m.pc }
