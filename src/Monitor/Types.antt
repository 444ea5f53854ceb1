-- ===== src/Monitor/Types.antt =====
-- The data of droid_web_display/transfers/monitor.py. Durations and times are milliseconds.
use droid_web_display.Common.{
  ℕ, String, Bool, false, ◌&&◌, Option, none, List, [], ◌∷◌, ◌==◌, str_eq, Result, Method,
  take_last, ◌++◌,
}
use droid_web_display.Transfers.Types.{
  DuplicatePolicy, rename, overwrite, Fault, TransferState, Manager,
}
use droid_web_display.Transfers.Browse.{AndroidEntry}
use droid_web_display.Transfers.Destinations.{Folders}
use droid_web_display.Transfers.Spool.{LocalStat}

-- `AutoDownloadConfig`
pub record Config : Type 0 where
  pub enabled : Bool
  pub pc_to_android_enabled : Bool
  pub serial : Option String
  pub source_path : String
  pub destination_profile : String
  pub duplicate_policy : DuplicatePolicy
  pub upload_duplicate_policy : DuplicatePolicy
  pub scan_interval : ℕ
  pub stability : ℕ
  pub stability_observations : ℕ
  pub include_existing : Bool
  pub include_existing_pc : Bool
  pub delete_after_verified : Bool

abbrev pub default_config : Config
default_config = record {
  enabled = false;
  pc_to_android_enabled = false;
  serial = none;
  source_path = "/sdcard/Download";
  destination_profile = "default-downloads";
  duplicate_policy = rename;
  upload_duplicate_policy = overwrite;
  scan_interval = 2000;
  stability = 3000;
  stability_observations = 3;
  include_existing = false;
  include_existing_pc = false;
  delete_after_verified = false;
}

-- `_fingerprint` and `_local_fingerprint`: a text of three parts with NUL between them, which no
-- path has, so that the text says what its parts are.
pub record Print : Type 0 where
  pub path : String
  pub size : ℕ
  pub modified : ℕ

abbrev pub same_print : Print → Print → Bool
same_print a b = str_eq a.path b.path && a.size == b.size && a.modified == b.modified

-- The status of a watched file. One that follows its transfer has the transfer's state.
pub data FileStatus : Type 0 where
  pending queueing queued baseline completed failed disappeared deleted processed : FileStatus
  uploaded_from_pc downloaded_from_android : FileStatus
  follows : TransferState → FileStatus

pub data Deletion : Type 0 where
  verified_absent deletion_failed : Deletion

-- `ObservedFile` and `ObservedLocalFile`. The destination is local for the one and remote for the
-- other, and only a file of the device has a deletion.
pub record Watched : Type 0 where
  pub path : String
  pub size : ℕ
  pub modified : ℕ
  pub fingerprint : Print
  pub first_seen_at : ℕ
  pub last_changed_at : ℕ
  pub stable_observations : ℕ
  pub status : FileStatus
  pub transfer_id : Option String
  pub retry_count : ℕ
  pub next_retry_at : ℕ
  pub destination : Option String
  pub deletion_result : Option Deletion
  pub error : Option String

-- A fingerprint that has been handled, with its time: an item of `_processed`.
pub record Handled : Type 0 where
  pub mark : Print
  pub since : ℕ

-- What the monitor keeps of one of its two folders, with the counters of that direction.
pub record Folder : Type 0 where
  pub observed : List Watched
  pub handled : List Handled
  pub baseline_initialized : Bool
  pub files_seen : ℕ
  pub transfers_queued : ℕ
  pub transfers_completed : ℕ

pub record Notice : Type 0 where
  pub timestamp : ℕ
  pub event : String
  pub subject : String

pub data Phase : Type 0 where
  disabled watching scanning error : Phase

-- What is written to the state file: the configuration, the runtime and the tables.
pub record Memory : Type 0 where
  pub config : Config
  pub phase : Phase
  pub android : Folder
  pub pc : Folder
  pub last_scan_at : Option ℕ
  pub last_success_at : Option ℕ
  pub last_error : Option String
  pub scan_count : ℕ
  pub deletions_completed : ℕ
  pub notifications : List Notice

-- The state file: missing, not to be decoded, or with what was written.
pub data StateFile : Type 0 where
  absent garbled : StateFile
  kept : Memory → StateFile

-- The monitor with its state file, and the transfer manager that it works with.
pub record World : Type 0 where
  pub memory : Memory
  pub disk : StateFile
  pub transfers : Manager

abbrev pub Watch : Type 0 → Type 0
Watch A = Method Fault World A

abbrev pub empty_folder : Folder
empty_folder = record {
  observed = [];
  handled = [];
  baseline_initialized = false;
  files_seen = 0;
  transfers_queued = 0;
  transfers_completed = 0;
}

abbrev pub notification_limit : ℕ
notification_limit = 100

-- `AutoDownloadRuntime.notify`, with the text that the event is about
unfoldable pub notify : ℕ → String → String → Memory → Memory
notify now name subject m = record m {
  notifications =
      take_last notification_limit
        (m.notifications ++ (record { timestamp = now; event = name; subject = subject }) ∷ []);
}

-- A regular file of the PC's folder, with its resolved path.
pub record LocalFile : Type 0 where
  pub path : String
  pub name : String
  pub size : ℕ
  pub modified : ℕ

pub record RemoteStat : Type 0 where
  pub mode : ℕ
  pub size : ℕ
  pub modified : ℕ

-- What a copy into the upload spool meets: the source before and after, and the copy's size.
pub record Copy : Type 0 where
  pub spool : String
  pub before : Option LocalStat
  pub after : LocalStat
  pub copied : Option ℕ

-- What a scan finds outside: the time, the disk, the listings, the device's answers and the ids
-- that are drawn for the transfer of a path.
pub record Outside : Type 0 where
  pub now : ℕ
  pub writable : Bool
  pub folders : Folders
  pub listed : Result Fault (List AndroidEntry)
  pub local_files : List LocalFile
  pub remote_stat : String → Result Fault RemoteStat
  pub local_stat : String → Option LocalFile
  pub removal : String → Result Fault (Unit {0})
  pub copy_of : String → Copy
  pub drawn : String → String
