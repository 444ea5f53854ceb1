-- ===== src/Monitor/Service.antt =====
-- The calls of `AutoDownloadMonitor` in droid_web_display/transfers/monitor.py.
use droid_web_display.Common.{
  ◌+◌, String, Bool, true, false, not, ◌&&◌, ◌||◌, Option, none, some, [], str_eq, if◌then◌else◌,
  Result, ok, err, lift, return, raise, reads, ◌>>=◌, ◌>>◌,
}
use droid_web_display.Transfers.Types.{Fault, os_error, validation, message}
use droid_web_display.Transfers.Destinations.{Folders, profile}
use droid_web_display.Monitor.Types.{
  Config, default_config, Folder, empty_folder, Phase, disabled, watching, scanning, error, Memory,
  Watch, Outside, StateFile, absent, garbled, kept, notify,
}
use droid_web_display.Monitor.Config.{validate, is_active, has_serial}
use droid_web_display.Monitor.Observe.{edit}
use droid_web_display.Monitor.Scan.{scan_android, scan_pc}
use droid_web_display.Monitor.Reconcile.{reconcile_transfers}
use droid_web_display.Monitor.Trim.{trim_processed}

-- `_persist_unlocked`
unfoldable pub persist : Bool → Watch (Unit {0})
persist writable w =
    if writable then (ok tt, record w { disk = kept w.memory }) else (err os_error, w)

abbrev pub same_serial : Option String → Option String → Bool
same_serial none none = true
same_serial (some a) (some b) = str_eq a b
same_serial _ _ = false

abbrev pub same_test : Bool → Bool → Bool
same_test true b = b
same_test false b = not b

abbrev pub remote_changed : Config → Config → Bool
remote_changed c d =
    not (same_serial c.serial d.serial)
    || not (str_eq c.source_path d.source_path)
    || not (same_test c.include_existing d.include_existing)

abbrev pub local_changed : Config → Config → Bool
local_changed c d =
    not (same_serial c.serial d.serial)
    || not (str_eq c.source_path d.source_path)
    || not (str_eq c.destination_profile d.destination_profile)
    || not (same_test c.include_existing_pc d.include_existing_pc)

-- The entries go and the baseline is taken again; the handled fingerprints stay.
abbrev pub restart_if : Bool → Folder → Folder
restart_if true f = record f { baseline_initialized = false; observed = [] }
restart_if false f = f

abbrev pub resting_phase : Config → Phase
resting_phase c = if is_active c then watching else disabled

abbrev pub adopted : Config → Memory → Memory
adopted c m = record m {
  config = c;
  android = restart_if (remote_changed c m.config) m.android;
  pc = restart_if (local_changed c m.config) m.pc;
  phase = resting_phase c;
  last_error = none;
}

unfoldable pub configure : Folders → Bool → Config → Watch (Unit {0})
configure folders writable config = do
  c ← lift (validate config)
  lift (profile folders c.destination_profile)
  edit (adopted c)
  persist writable

abbrev pub cleared : Memory → Memory
cleared m = record m {
  android = empty_folder;
  pc = empty_folder;
  deletions_completed = 0;
  notifications = [];
}

unfoldable pub clear_history : Bool → Watch (Unit {0})
clear_history writable = do edit cleared; persist writable

abbrev pub when : Bool → Watch (Unit {0}) → Watch (Unit {0})
when true m = m
when false m = return tt

-- The body of the try block of `_scan_once_locked`.
unfoldable pub sweep : Outside → Bool → Config → Watch (Unit {0})
sweep e force c = do
  reconcile_transfers e
  when (c.enabled || force) (scan_android e)
  when c.pc_to_android_enabled (scan_pc e)
  edit (λ m.
      trim_processed
        (record m { phase = resting_phase c; last_success_at = some e.now; last_error = none }))
  persist e.writable

abbrev pub failed_scan : Outside → Bool → Fault → Watch (Unit {0})
failed_scan e force f = do
  edit (λ m.
      notify e.now "scan-failed" (message f)
        (record m { phase = error; last_error = some (message f) }))
  persist e.writable
  when force (raise f)

abbrev pub guarded : Outside → Bool → Result Fault (Unit {0}) → Watch (Unit {0})
guarded e force (ok u) = return tt
guarded e force (err f) = failed_scan e force f

abbrev pub catching : Outside → Bool → Watch (Unit {0}) → Watch (Unit {0})
catching e force body w = let (r, v) = body w in guarded e force r v

abbrev pub begin_scan : Outside → Memory → Memory
begin_scan e m = record m {
  phase = scanning;
  last_scan_at = some e.now;
  scan_count = m.scan_count + 1;
}

abbrev pub scan_with : Outside → Bool → Config → Watch (Unit {0})
scan_with e force c =
    if not (is_active c) && not force
    then return tt
    else if not (has_serial c.serial)
    then when force (raise (validation "select a device before scanning"))
    else (do edit (begin_scan e); catching e force (sweep e force c))

-- `_scan_once`, and `scan_now` with `force` where no scan is running
unfoldable pub scan_once : Outside → Bool → Watch (Unit {0})
scan_once e force = do c ← reads (λ w. w.memory.config); scan_with e force c

abbrev pub reset_memory : Memory
reset_memory = record {
  config = default_config;
  phase = disabled;
  android = empty_folder;
  pc = empty_folder;
  last_scan_at = none;
  last_success_at = none;
  last_error = some "monitor state could not be loaded; reset to disabled";
  scan_count = 0;
  deletions_completed = 0;
  notifications = [];
}

-- A configuration that does not validate raises past the handler of `_load`, which takes no
-- `BridgeError`.
abbrev pub restore : Memory → Result Fault Config → Watch (Unit {0})
restore m (err f) = raise f
restore m (ok c) = edit (λ _. record m { config = c; phase = resting_phase c })

abbrev pub load_from : StateFile → Watch (Unit {0})
load_from absent = return tt
load_from garbled = edit (λ _. reset_memory)
load_from (kept m) = restore m (validate m.config)

-- `_load`
unfoldable pub load : Watch (Unit {0})
load = do file ← reads (λ w. w.disk); load_from file
