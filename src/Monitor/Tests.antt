-- ===== src/Monitor/Tests.antt =====
-- The monitor at concrete folders.
use droid_web_display.Common.{
  ℕ, ◌≤◌, ◌-◌, String, true, false, ◌≡◌, refl, none, some, List, [], ◌∷◌, ok, err, arith, count,
  str_eq, ◌&&◌,
}
use droid_web_display.Common.Table.{find, put}
use droid_web_display.Transfers.Types.{
  Manager, TransferRecord, os_error, validation, rename, upload,
}
use droid_web_display.Transfers.Queue.{new_record}
use droid_web_display.Monitor.Types.{
  Config, default_config, Print, FileStatus, downloaded_from_android, Watched, empty_folder, World,
  Outside, watching, absent, LocalFile,
}
use droid_web_display.Monitor.Config.{is_ignored}
use droid_web_display.Monitor.Observe.{
  path_of, print_of, fresh, note_entry, seen, judge, is_handled, is_stable, rests_android,
  observe_android_entry, observe_pc_entry,
}
use droid_web_display.Monitor.Scan.{sweep_android}
use droid_web_display.Monitor.Reconcile.{finish_verified_upload, finish_verified_download}
use droid_web_display.Monitor.Trim.{settles, max_settled, keep_recent}
use droid_web_display.Monitor.Service.{scan_once}
use droid_web_display.Monitor.Baseline.{trimmed, sweep_android-baseline}
use droid_web_display.Monitor.Bounce.{
  observe_android_entry-finish_verified_upload, observe_pc_entry-finish_verified_download,
}
use droid_web_display.Monitor.Streak.{streak, streak_start, sighted, sighted-streak, note_entry-due}
use droid_web_display.Monitor.Bounds.{keep_recent_lem, keep_recent-downloaded}
use droid_web_display.Monitor.Capacity.{Within}
use droid_web_display.Monitor.Rounds.{scan_once-Within}

ignored_partial : is_ignored "movie.MP4.crDownload" ≡ true
unfolding is_ignored
ignored_partial = refl

kept_name : is_ignored "movie.mp4" ≡ false
unfolding is_ignored
kept_name = refl

abbrev photo : Print
photo = print_of "/sdcard/Download/a.jpg" 7 100

abbrev watch_config : Config
watch_config = record default_config {
  enabled = true;
  serial = some "phone";
  stability_observations = 2;
}

abbrev idle_transfers : Manager
idle_transfers = record {
  records = [];
  tasks = [];
  files = [];
  disk = none;
  maximum_queue_length = 2;
  maximum_file_size = 100;
  started = true;
}

abbrev watch_world : World
watch_world = record {
  memory = record {
    config = watch_config;
    phase = watching;
    android = empty_folder;
    pc = empty_folder;
    last_scan_at = none;
    last_success_at = none;
    last_error = none;
    scan_count = 0;
    deletions_completed = 0;
    notifications = [];
  };
  disk = absent;
  transfers = idle_transfers;
}

abbrev local_photo : LocalFile
local_photo = record { path = "/home/u/a.jpg"; name = "a.jpg"; size = 7; modified = 5 }

abbrev outside : Outside
outside = record {
  now = 10000;
  writable = true;
  folders = record {
    profiles = ("default-downloads", "/home/u") ∷ [];
    resolved = λ path. some path;
    is_other = λ path. false;
  };
  listed = err os_error;
  local_files = [];
  remote_stat = λ path. ok (record { mode = 0o100664; size = 7; modified = 100 });
  local_stat = λ path. some local_photo;
  removal = λ path. err os_error;
  copy_of = λ path. record {
    spool = "spool/x";
    before = none;
    after = record { size = 0; modified = 0 };
    copied = none;
  };
  drawn = λ path. "id-1";
}

sweep_android-baseline_example :
    (sweep_android
      (record outside { now = 99000 })
      (photo ∷ [])
      (trimmed (sweep_android outside (photo ∷ []) watch_world).1)).1.transfers
    ≡ idle_transfers
sweep_android-baseline_example =
    sweep_android-baseline outside (record outside { now = 99000 }) (photo ∷ []) watch_world refl
      (omega arith)

abbrev finished : TransferRecord
finished = record (new_record 1 "id-1" upload "phone" rename) {
  destination_path = "/sdcard/Download/a.jpg";
}

observe_android_entry-finish_verified_upload_example :
    (observe_android_entry outside photo
      (finish_verified_upload outside
        (fresh 0 photo FileStatus.queued 1)
        finished
        watch_world).1).1.transfers
    ≡ idle_transfers
observe_android_entry-finish_verified_upload_example =
    observe_android_entry-finish_verified_upload outside outside (fresh 0 photo FileStatus.queued 1)
      finished (record { mode = 0o100664; size = 7; modified = 100 }) watch_world refl refl refl

observe_pc_entry-finish_verified_download_example :
    (observe_pc_entry outside local_photo
      (finish_verified_download outside
        (fresh 0 photo FileStatus.queued 1)
        finished
        watch_world).1).1.transfers
    ≡ idle_transfers
observe_pc_entry-finish_verified_download_example =
    observe_pc_entry-finish_verified_download outside outside (fresh 0 photo FileStatus.queued 1)
      finished local_photo watch_world refl

abbrev bigger : Print
bigger = print_of "/sdcard/Download/a.jpg" 9 120

abbrev sightings : List (ℕ × Print)
sightings = (5000, bigger) ∷ (3000, bigger) ∷ (1000, photo) ∷ []

sighted-streak_example :
    ((record (fresh 3000 bigger FileStatus.queueing 3) { next_retry_at = 0 }).stable_observations
      ≡ streak bigger ((8000, bigger) ∷ sightings))
    × (3000 ≡ streak_start 8000 bigger ((8000, bigger) ∷ sightings))
unfolding sighted note_entry judge seen is_handled is_stable find put
sighted-streak_example =
    sighted-streak rests_android watch_config 8000 bigger sightings empty_folder
      (fresh 3000 bigger FileStatus.queueing 3) refl (refl, (refl, (refl, tt))) refl

note_entry-due_example :
    (is_handled bigger [] ≡ false)
    × (2 ≤ streak bigger ((8000, bigger) ∷ sightings))
    × (3000 ≤ 8000 - streak_start 8000 bigger ((8000, bigger) ∷ sightings))
unfolding sighted note_entry judge seen is_handled is_stable find put
note_entry-due_example =
    note_entry-due rests_android watch_config 8000 bigger sightings empty_folder refl
      (refl, (refl, (refl, tt))) refl

abbrev brought : List Watched
brought = fresh 1 photo downloaded_from_android 2 ∷ fresh 2 photo downloaded_from_android 2 ∷ []

brought_unbounded : keep_recent brought ≡ brought
brought_unbounded = keep_recent-downloaded brought (refl, (refl, tt))

brought_kept :
    (count settles (keep_recent brought) ≤ max_settled)
    × ((path : String)
        → count (λ o. settles o && str_eq (path_of o) path) brought ≡ 0
        → find path_of path (keep_recent brought) ≡ find path_of path brought)
brought_kept = keep_recent_lem brought

scan_once-Within_example : Within (scan_once outside true watch_world).1
scan_once-Within_example = scan_once-Within outside true watch_world (omega arith)

-- The device's folder is not there.
abbrev unlisted : Outside
unlisted = record outside { listed = err (validation "gone") }
