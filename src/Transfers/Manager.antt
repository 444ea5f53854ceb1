-- ===== src/Transfers/Manager.antt =====
-- The rest of `TransferManager` in droid_web_display/transfers/manager.py: downloads, runs,
-- cancelling, retrying, and what happens at the start and the end of the service.
use droid_web_display.Common.{
  ℕ, ◌+◌, String, Bool, true, false, not, Option, none, some, List, [], ◌∷◌, map, any, str_eq,
  if◌then◌else◌, lookup, is_some, ok, return, raise, lift, reads, writes, require, ◌>>=◌, ◌>>◌,
}
use droid_web_display.Common.Table.{find, put}
use droid_web_display.Common.Text.{chars, of_chars}
use droid_web_display.Transfers.Types.{
  TransferRecord, upload, download, TransferState, queued, cancelled, interrupted, DuplicatePolicy,
  conflict, plain, reason, retried, no_speed, add_event, is_final, is_retryable, Manager, Action,
  Work, Run, Surroundings,
}
use droid_web_display.Transfers.Paths.{parts, normalize_android_path}
use droid_web_display.Transfers.Filenames.{sanitize_filename, last_part, below}
use droid_web_display.Transfers.Runs.{resolve_duplicate}
use droid_web_display.Transfers.Execute.{execute, mark_cancelled}
use droid_web_display.Transfers.Queue.{
  id_of, list_records, persist_all, get, check_queue_capacity, drop_task, schedule,
  register_and_run, new_record,
}
use droid_web_display.Transfers.Destinations.{Folders, is_custom, destination_folder}

unfoldable pub enqueue_download :
    Folders
    → ℕ
    → Bool
    → String
    → String
    → String
    → String
    → Option String
    → DuplicatePolicy
    → Action TransferRecord
enqueue_download d now writable id serial source profile_id custom policy = do
  check_queue_capacity
  normalized ← lift (normalize_android_path source)
  folder ← lift (destination_folder d profile_id custom)
  let filename = sanitize_filename (of_chars (last_part (parts (chars normalized))))
  files ← reads (λ m. m.files)
  destination ← lift (resolve_duplicate files (below folder filename) policy)
  let r = add_event now "queued" plain (record (new_record now id download serial policy) {
    source_path = normalized;
    destination_path = destination;
    filename = filename;
    destination_profile = some (if is_custom custom then "custom" else profile_id);
    internal_local_path = some destination;
  })
  register_and_run writable r
  return r

-- What a run's work leaves in the manager.
abbrev pub written : Option TransferRecord → Manager → Option (List TransferRecord)
written none m = m.disk
written (some r) m = some (list_records (record m { records = put id_of r m.records }))

abbrev pub store : Work → Manager → Manager
store w m = record m {
  records = put id_of w.item m.records;
  files = w.files;
  disk = written w.saved m;
}

abbrev pub work_on : TransferRecord → Manager → Work
work_on r m = record { item = r; files = m.files; saved = none }

abbrev pub run_found : Run (Unit {0}) → String → Option TransferRecord → Manager → Manager
run_found task id none m = m
run_found task id (some r) m = store (task (work_on r m)).1 m

-- A task to its end, with `_discard_task`; what it raises stays in the task.
unfoldable pub run_task : Surroundings → String → Manager → Manager
run_task e id m =
    let n = run_found (execute e) id (find id_of id m.records) m in
    record n { tasks = drop_task id n.tasks }

-- `task.cancel()` and the wait for its end. Where the task had not begun it ends at once, and
-- otherwise with a run in these surroundings.
abbrev pub stopped : Option Surroundings → String → Manager → Manager
stopped none id m = record m { tasks = drop_task id m.tasks }
stopped (some e) id m = run_task e id m

unfoldable pub mark_found : Surroundings → String → Option TransferRecord → Action (Unit {0})
mark_found e id none m = (ok tt, m)
mark_found e id (some r) m = elim r.state [
  | cancelled ↦ (ok tt, m)
  | _ ↦ ((mark_cancelled e (work_on r m)).0, store (mark_cancelled e (work_on r m)).1 m)
]

abbrev pub is_cancelled : TransferState → Bool
is_cancelled cancelled = true
is_cancelled _ = false

-- `task.cancel()` and its wait, where the transfer has a task.
unfoldable pub halt : Option Surroundings → String → Manager → Manager
halt begun id m = if any (str_eq id) m.tasks then stopped begun id m else m

abbrev pub cancel_pending : Surroundings → Option Surroundings → String → Action TransferRecord
cancel_pending e begun id = do
  writes (halt begun id)
  r ← reads (λ m. find id_of id m.records)
  mark_found e id r
  get id

unfoldable pub cancel : Surroundings → Option Surroundings → String → Action TransferRecord
cancel e begun id = do
  r ← get id
  if is_cancelled r.state
      then return r
      else if is_final r.state
      then raise (conflict "completed or failed transfer cannot be cancelled")
      else cancel_pending e begun id

-- Whether the file that an upload sends is still there.
abbrev pub has_spool : TransferRecord → Manager → Bool
has_spool r m = elim r.internal_local_path [
  | none ↦ false
  | some path ↦ is_some (lookup path m.files)
]

abbrev pub lacks_source : TransferRecord → Manager → Bool
lacks_source r m = elim r.direction [ upload ↦ not (has_spool r m) | download ↦ false ]

abbrev pub requeued : ℕ → TransferRecord → TransferRecord
requeued now r = add_event now "retry_queued" (retried (r.retry_count + 1)) (record r {
  state = queued;
  bytes_transferred = 0;
  speed = no_speed;
  started_at = none;
  ended_at = none;
  error = none;
  verification = none;
  retry_count = r.retry_count + 1;
})

unfoldable pub retry : ℕ → Bool → String → Action TransferRecord
retry now writable id = do
  r ← get id
  require (is_retryable r.state) (conflict "transfer is not retryable")
  lacking ← reads (lacks_source r)
  require (not lacking) (conflict "upload spool file is unavailable; select the source file again")
  writes (λ m. record m { records = put id_of (requeued now r) m.records })
  persist_all writable
  schedule id
  return (requeued now r)

abbrev pub interrupt : ℕ → String → String → TransferRecord → TransferRecord
interrupt now error cause r =
    if is_final r.state
    then r
    else add_event now "interrupted" (reason cause)
        (record r { state = interrupted; ended_at = some now; error = some error })

abbrev pub stop_all : List (String × Surroundings) → Manager → Manager
stop_all [] m = m
stop_all ((id, e) ∷ rest) m = stop_all rest (run_task e id m)

-- With the tasks that had begun, each with the surroundings in which it ends.
unfoldable pub close : ℕ → Bool → List (String × Surroundings) → Action (Unit {0})
close now writable begun = do
  writes (stop_all begun)
  writes (λ m. record m {
    records =
        map (interrupt now "bridge service stopped during transfer" "service_shutdown") m.records;
  })
  persist_all writable
  writes (λ m. record m { tasks = []; started = false })

abbrev pub restored : ℕ → TransferRecord → TransferRecord
restored now r =
    interrupt now "bridge restarted before transfer completed" "service_restart"
      (record r { speed = no_speed })

unfoldable pub restore_all : ℕ → List TransferRecord → List TransferRecord → List TransferRecord
restore_all now [] rs = rs
restore_all now (r ∷ stored) rs = restore_all now stored (put id_of (restored now r) rs)

unfoldable pub load_state : ℕ → Manager → Manager
load_state now m = elim m.disk [
  | none ↦ m
  | some stored ↦ record m { records = restore_all now stored m.records }
]

unfoldable pub start : ℕ → Action (Unit {0})
start now m =
    if m.started then (ok tt, m) else (ok tt, record (load_state now m) { started = true })
