-- ===== src/Transfers/Capacity.antt =====
-- How many transfers are pending in the table.
use droid_web_display.Common.{
  ℕ, ◌≤◌, ◌<◌, String, Bool, true, false, ◌≡◌, refl, Option, none, some, count, Result, ok, err,
  arith, continue, ◌>>=◌, ◌>>◌, lift, return,
}
use droid_web_display.Common.Table.{find, count-put_le, count-put_over, key-find}
use droid_web_display.Transfers.Types.{
  TransferRecord, DuplicatePolicy, Manager, Surroundings, add_event, is_retryable, Work, Fault,
  Action,
}
use droid_web_display.Transfers.Paths.{normalize_android_path}
use droid_web_display.Transfers.Filenames.{join_android_path}
use droid_web_display.Transfers.Runs.{resolve_duplicate}
use droid_web_display.Transfers.Execute.{execute}
use droid_web_display.Transfers.Settled.{execute-IsSettled}
use droid_web_display.Transfers.Queue.{
  id_of, is_pending, check_queue_capacity, register_and_run, enqueue_upload, drop_task, persist_all,
  schedule, get,
}
use droid_web_display.Transfers.Destinations.{Folders, destination_folder}
use droid_web_display.Transfers.Manager.{
  enqueue_download, run_task, run_found, work_on, retry, requeued, lacks_source,
}

abbrev pub pending : Manager → ℕ
pending m = count is_pending m.records

-- The queue holds no more than it may.
abbrev pub IsWithin : Manager → Type 0
IsWithin m = pending m ≤ m.maximum_queue_length

abbrev HasRoom : Manager → Type 0
HasRoom m = pending m < m.maximum_queue_length

register-IsWithin :
    (writable : Bool) (r : TransferRecord) (m : Manager)
    → HasRoom m
    → IsWithin (register_and_run writable r m).1
unfolding register_and_run persist_all schedule
register-IsWithin writable r m h = ground (arith, count-put_le id_of is_pending r m.records)

queue_record : Bool → (String → TransferRecord) → Result Fault String → Action TransferRecord
queue_record writable f x = do
  destination ← lift x
  register_and_run writable (f destination)
  return (f destination)

queue_record-IsWithin :
    (writable : Bool) (f : String → TransferRecord) (x : Result Fault String) (m : Manager)
    → IsWithin m
    → HasRoom m
    → IsWithin (queue_record writable f x m).1
unfolding queue_record
queue_record-IsWithin writable f (err e) m h room = h
queue_record-IsWithin writable f (ok d) m h room =
    ground (arith, register-IsWithin writable (f d) m room)

lifted-IsWithin :
    (x : Result Fault String) (k : String → Action TransferRecord) (m : Manager)
    → IsWithin m
    → ((a : String) → IsWithin (k a m).1)
    → IsWithin (continue x k m).1
lifted-IsWithin (err e) k m h p = h
lifted-IsWithin (ok a) k m h p = p a

checked-IsWithin :
    (k : Action TransferRecord) (m : Manager)
    → IsWithin m
    → (HasRoom m → IsWithin (k m).1)
    → IsWithin ((check_queue_capacity >> k) m).1
unfolding check_queue_capacity
checked-IsWithin k m h p = ground arith

-- Neither kind of enqueueing makes the queue longer than it may be, whether it returns or raises.
pub enqueue_upload-IsWithin :
    (now : ℕ) (writable : Bool) (id serial spool original : String) (size : ℕ) (directory : String)
    (policy : DuplicatePolicy) (m : Manager)
    → IsWithin m
    → IsWithin (enqueue_upload now writable id serial spool original size directory policy m).1
unfolding enqueue_upload queue_record
enqueue_upload-IsWithin now writable id serial spool original size directory policy m h =
    checked-IsWithin _ m h
      (λ room. queue_record-IsWithin writable _ (join_android_path directory original) m h room)

pub enqueue_download-IsWithin :
    (d : Folders) (now : ℕ) (writable : Bool) (id serial source profile_id : String)
    (custom : Option String) (policy : DuplicatePolicy) (m : Manager)
    → IsWithin m
    → IsWithin (enqueue_download d now writable id serial source profile_id custom policy m).1
unfolding enqueue_download queue_record
enqueue_download-IsWithin d now writable id serial source profile_id custom policy m h =
    checked-IsWithin _ m h (λ room. lifted-IsWithin (normalize_android_path source) _ m h (λ normal.
      lifted-IsWithin (destination_folder d profile_id custom) _ m h
        (λ folder. queue_record-IsWithin writable _ (resolve_duplicate m.files _ policy) m h room)))

-- A run, which leaves its record in a final state.
execute-pending : (e : Surroundings) (w : Work) → is_pending (execute e w).1.item ≡ false
execute-pending e w = ground (arith, execute-IsSettled e w)

pub run_task-IsWithin :
    (e : Surroundings) (id : String) (m : Manager) → pending (run_task e id m) ≤ pending m
unfolding run_task
run_task-IsWithin e id m =
    elim (find id_of id m.records)
      as (λ r.
        pending (record (run_found (execute e) id r m) {
          tasks = drop_task id (run_found (execute e) id r m).tasks;
        })
        ≤ pending m) [
          | none ↦ omega arith
          | some r ↦ ground (
            arith,
            count-put_le id_of is_pending (execute e (work_on r m)).1.item m.records,
            execute-pending e (work_on r m),
          )
        ]

requeued-pending :
    (now : ℕ) (r : TransferRecord)
    → (is_pending (requeued now r) ≡ true) × (id_of (requeued now r) ≡ id_of r)
unfolding add_event
requeued-pending now r = (refl, refl)

-- In a queue that is exactly full, a retry that can be saved, of a transfer that may be retried and
-- has its source, leaves more transfers pending than the queue may hold.
pub retry-exceeds :
    (now : ℕ) (id : String) (r : TransferRecord) (m : Manager)
    → find id_of id m.records ≡ some r
    → is_retryable r.state ≡ true
    → lacks_source r m ≡ false
    → pending m ≡ m.maximum_queue_length
    → ¬ IsWithin (retry now true id m).1
unfolding retry get persist_all schedule
retry-exceeds now id r m here again source full = ground (
  arith,
  count-put_over id_of is_pending id (requeued now r) r m.records here,
  requeued-pending now r,
  key-find id_of id m.records r here,
)
