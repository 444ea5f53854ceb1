-- ===== src/Monitor/Scan.antt =====
-- A sweep over each folder: `_scan_android` and `_scan_pc` of
-- droid_web_display/transfers/monitor.py.
use droid_web_display.Common.{
  ℕ, String, Bool, true, false, not, ◌&&◌, List, [], ◌∷◌, any, keep, map, length, str_eq,
  if◌then◌else◌, lift, return, reads, ◌>>=◌, ◌>>◌,
}
use droid_web_display.Common.Table.{put}
use droid_web_display.Transfers.Browse.{AndroidEntry}
use droid_web_display.Transfers.Destinations.{profile}
use droid_web_display.Monitor.Types.{
  Config, Print, FileStatus, pending, baseline, disappeared, Watched, Folder, Watch, Outside,
  LocalFile, notify,
}
use droid_web_display.Monitor.Config.{is_ignored}
use droid_web_display.Monitor.Observe.{
  path_of, print_of, fresh, handle, local_print, with_status, observe_android_entry,
  observe_pc_entry, edit, on_android, on_pc,
}

-- A file that is there when the watching begins is handled.
unfoldable pub baseline_entry : Config → ℕ → Print → Folder → Folder
baseline_entry c now p f = record f {
  handled = handle p now f.handled;
  observed = put path_of (fresh now p baseline c.stability_observations) f.observed;
}

unfoldable pub baseline_all : Config → ℕ → List Print → Folder → Folder
baseline_all c now [] f = f
baseline_all c now (p ∷ ps) f = baseline_all c now ps (baseline_entry c now p f)

abbrev pub is_waiting : FileStatus → Bool
is_waiting pending = true
is_waiting baseline = true
is_waiting _ = false

abbrev pub is_present : List Print → String → Bool
is_present ps path = any (λ (p : Print). str_eq p.path path) ps

abbrev pub unless_present : List Print → Watched → Watched
unless_present ps o =
    if not (is_present ps o.path) && is_waiting o.status then with_status disappeared o else o

unfoldable pub mark_disappeared : List Print → Folder → Folder
mark_disappeared ps f = record f { observed = map (unless_present ps) f.observed }

abbrev pub see : ℕ → Folder → Folder
see n f = record f { files_seen = n }

abbrev pub begun : Folder → Folder
begun f = record f { baseline_initialized = true }

unfoldable pub observe_android : Outside → List Print → Watch (Unit {0})
observe_android e [] = return tt
observe_android e (p ∷ ps) = do observe_android_entry e p; observe_android e ps

unfoldable pub observe_pc : Outside → List LocalFile → Watch (Unit {0})
observe_pc e [] = return tt
observe_pc e (l ∷ ls) = do observe_pc_entry e l; observe_pc e ls

abbrev pub is_watched_entry : AndroidEntry → Bool
is_watched_entry a = not a.directory && not (is_ignored a.name)

abbrev pub entry_print : AndroidEntry → Print
entry_print a = print_of a.path a.size a.modified_at

abbrev pub wants_baseline : Bool → Folder → Bool
wants_baseline include f = not f.baseline_initialized && not include

-- The files of the listing, once it has been read.
unfoldable pub sweep_android : Outside → List Print → Watch (Unit {0})
sweep_android e ps = do
  edit (on_android (see (length ps)))
  first ← reads (λ w. wants_baseline w.memory.config.include_existing w.memory.android)
  if first
      then edit (λ m.
        notify e.now "baseline-created" ""
          (on_android (λ f. begun (baseline_all m.config e.now ps f)) m))
      else (do
        edit (on_android begun)
        observe_android e ps
        edit (on_android (mark_disappeared ps)))

unfoldable pub scan_android : Outside → Watch (Unit {0})
scan_android e = do
  entries ← lift e.listed
  sweep_android e (map entry_print (keep is_watched_entry entries))

abbrev pub is_watched_file : LocalFile → Bool
is_watched_file l = not (is_ignored l.name)

unfoldable pub sweep_pc : Outside → List LocalFile → Watch (Unit {0})
sweep_pc e ls = do
  edit (on_pc (see (length ls)))
  first ← reads (λ w. wants_baseline w.memory.config.include_existing_pc w.memory.pc)
  if first
      then edit (λ m.
        notify e.now "pc-baseline-created" ""
          (on_pc (λ f. begun (baseline_all m.config e.now (map local_print ls) f)) m))
      else (do
        edit (on_pc begun)
        observe_pc e ls
        edit (on_pc (mark_disappeared (map local_print ls))))

-- The regular files of the profile's folder, sorted by name.
unfoldable pub scan_pc : Outside → Watch (Unit {0})
scan_pc e = do
  id ← reads (λ w. w.memory.config.destination_profile)
  lift (profile e.folders id)
  sweep_pc e (keep is_watched_file e.local_files)
