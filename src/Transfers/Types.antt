-- ===== src/Transfers/Types.antt =====
-- The data of droid_web_display/transfers/models.py and of the manager in transfers/manager.py.
use droid_web_display.Common.{
  ℕ, zero, suc, String, Bool, true, false, Option, none, some, List, [], ◌∷◌, ◌++◌, leb,
  if◌then◌else◌, Dict, Result, take_last, Method,
}

pub data TransferDirection : Type 0 where
  upload download : TransferDirection

pub data TransferState : Type 0 where
  queued preparing transferring verifying completed cancelled failed interrupted : TransferState

pub data DuplicatePolicy : Type 0 where
  rename overwrite fail : DuplicatePolicy

-- What the operations raise; `task_cancelled` is the cancellation of the running task.
pub data Fault : Type 0 where
  not_found task_cancelled os_error : Fault
  conflict validation transfer_error : String → Fault

-- `str(exc)`
abbrev pub message : Fault → String
message not_found = "transfer not found"
message task_cancelled = "cancelled"
message os_error = "os error"
message (conflict m) = m
message (validation m) = m
message (transfer_error m) = m

-- The keyword of an event, with its value.
pub data Detail : Type 0 where
  plain : Detail
  reason reported : String → Detail
  retried : ℕ → Detail
  verified : Option String → Detail

pub record Event : Type 0 where
  pub timestamp : ℕ
  pub event : String
  pub detail : Detail

-- Bytes over milliseconds.
pub record Speed : Type 0 where
  pub bytes : ℕ
  pub millis : ℕ

abbrev pub no_speed : Speed
no_speed = record { bytes = 0; millis = 1 }

pub record TransferRecord : Type 0 where
  pub transfer_id : String
  pub direction : TransferDirection
  pub serial : String
  pub source_path : String
  pub destination_path : String
  pub filename : String
  pub state : TransferState
  pub size : Option ℕ
  pub bytes_transferred : ℕ
  pub speed : Speed
  pub created_at : ℕ
  pub started_at : Option ℕ
  pub ended_at : Option ℕ
  pub retry_count : ℕ
  pub error : Option String
  pub verification : Option String
  pub duplicate_policy : DuplicatePolicy
  pub destination_profile : Option String
  pub internal_local_path : Option String
  pub history : List Event

abbrev pub history_limit : ℕ
history_limit = 100

-- `TransferRecord.add_event`
unfoldable pub add_event : ℕ → String → Detail → TransferRecord → TransferRecord
add_event now name details r = record r {
  history =
      take_last history_limit
        (r.history ++ (record { timestamp = now; event = name; detail = details }) ∷ []);
}

-- `TransferRecord.progress`: the numerator and the denominator, at most one.
unfoldable pub progress : TransferRecord → Option (ℕ × ℕ)
progress r = elim r.size [
  | none ↦ none
  | some zero ↦ none
  | some (suc n) ↦
      if leb (suc n) r.bytes_transferred then some (1, 1) else some (r.bytes_transferred, suc n)
]

-- `_FINAL_STATES`
abbrev pub is_final : TransferState → Bool
is_final completed = true
is_final cancelled = true
is_final failed = true
is_final interrupted = true
is_final _ = false

-- `_RETRYABLE_STATES`
abbrev pub is_retryable : TransferState → Bool
is_retryable cancelled = true
is_retryable failed = true
is_retryable interrupted = true
is_retryable _ = false

pub record AndroidStat : Type 0 where
  pub mode : ℕ
  pub size : ℕ

-- The manager, the ids that have a task, the sizes of the files on the PC that it works with, and
-- the records of its state file. A file that cannot be read or decoded is `none`.
pub record Manager : Type 0 where
  pub records : List TransferRecord
  pub tasks : List String
  pub files : Dict ℕ
  pub disk : Option (List TransferRecord)
  pub maximum_queue_length : ℕ
  pub maximum_file_size : ℕ
  pub started : Bool

abbrev pub Action : Type 0 → Type 0
Action A = Method Fault Manager A

-- One run of a transfer: its record, the files, and the record as it was last written to disk.
pub record Work : Type 0 where
  pub item : TransferRecord
  pub files : Dict ℕ
  pub saved : Option TransferRecord

abbrev pub Run : Type 0 → Type 0
Run A = Method Fault Work A

-- What the surroundings answer during a run. An awaited call may raise, and where the task is
-- cancelled at that call it raises `task_cancelled`.
pub record Surroundings : Type 0 where
  pub prepared_at : ℕ
  pub transferring_at : ℕ
  pub verifying_at : ℕ
  pub completed_at : ℕ
  pub scanned_at : ℕ
  pub ended_at : ℕ
  pub ready_state : Result Fault String
  pub stat_of : String → Result Fault AndroidStat
  pub made_parent : String → Result Fault (Unit {0})
  -- the reports of a push or a pull: bytes done, the total, and milliseconds since its start
  pub reports : List (ℕ × Option ℕ × ℕ)
  pub sent : Result Fault (Unit {0})
  pub arrived : String → Result Fault AndroidStat
  pub pulled : Result Fault (Unit {0})
  -- the size of the partial file once `pull` has ended, where it made one
  pub partial_size : Option ℕ
  pub scan : Option (Result Fault (Unit {0}))
  pub writable : Bool
  pub removable : Bool
