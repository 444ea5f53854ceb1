-- ===== src/Transfers/Calls.antt =====
-- Histories of calls of the transfer manager of droid_web_display/transfers/manager.py, retries
-- left out, with runs of its tasks between them.
use droid_web_display.Common.{
  ℕ, ◌≤◌, String, Bool, ◌≡◌, refl, Option, none, some, List, [], ◌∷◌, map, count, arith,
}
use droid_web_display.Common.Table.{find, count-put_le}
use droid_web_display.Transfers.Types.{
  TransferRecord, DuplicatePolicy, Manager, Surroundings, add_event,
}
use droid_web_display.Transfers.Execute.{mark_cancelled}
use droid_web_display.Transfers.Settled.{mark_cancelled-cancelled}
use droid_web_display.Transfers.Queue.{id_of, is_pending, enqueue_upload, persist_all, get}
use droid_web_display.Transfers.Destinations.{Folders}
use droid_web_display.Transfers.Manager.{
  enqueue_download, run_task, work_on, close, interrupt, stop_all, cancel, stopped, halt,
  mark_found,
}
use droid_web_display.Transfers.Capacity.{
  pending, IsWithin, enqueue_upload-IsWithin, enqueue_download-IsWithin, run_task-IsWithin,
}

pub data Call : Type 0 where
  upload_file :
      (now : ℕ) (writable : Bool) (id serial spool original : String) (size : ℕ)
      (directory : String) (policy : DuplicatePolicy)
      → Call
  download_file :
      (d : Folders) (now : ℕ) (writable : Bool) (id serial source profile_id : String)
      (custom : Option String) (policy : DuplicatePolicy)
      → Call
  task_ends : (e : Surroundings) (id : String) → Call
  cancels : (e : Surroundings) (begun : Option Surroundings) (id : String) → Call
  closes : (now : ℕ) (writable : Bool) (begun : List (String × Surroundings)) → Call

abbrev pub perform : Call → Manager → Manager
perform (upload_file now w id serial spool original size directory policy) m =
    (enqueue_upload now w id serial spool original size directory policy m).1
perform (download_file d now w id serial source profile_id custom policy) m =
    (enqueue_download d now w id serial source profile_id custom policy m).1
perform (task_ends e id) m = run_task e id m
perform (cancels e begun id) m = (cancel e begun id m).1
perform (closes now w begun) m = (close now w begun m).1

abbrev pub history : List Call → Manager → Manager
history [] m = m
history (c ∷ cs) m = history cs (perform c m)

maximum-run_task :
    (e : Surroundings) (id : String) (m : Manager)
    → (run_task e id m).maximum_queue_length ≡ m.maximum_queue_length
unfolding run_task
maximum-run_task e id m = ground arith

-- What makes no queue longer and leaves its limit.
abbrev IsShorter : Manager → Manager → Type 0
IsShorter n m = (pending n ≤ pending m) × (n.maximum_queue_length ≡ m.maximum_queue_length)

stop_all-IsShorter :
    (begun : List (String × Surroundings)) (m : Manager) → IsShorter (stop_all begun m) m
stop_all-IsShorter [] m = (omega arith, refl)
stop_all-IsShorter ((id, e) ∷ rest) m = ground (
  arith,
  stop_all-IsShorter rest (run_task e id m),
  run_task-IsWithin e id m,
  maximum-run_task e id m,
)

count-interrupt :
    (now : ℕ) (error cause : String) (rs : List TransferRecord)
    → count is_pending (map (interrupt now error cause) rs) ≡ 0
unfolding add_event
count-interrupt now error cause [] = refl
count-interrupt now error cause (r ∷ rs) = ground (arith, count-interrupt now error cause rs)

-- A close leaves no transfer pending, whatever its tasks do and whether or not it can save.
pub pending-close :
    (now : ℕ) (writable : Bool) (begun : List (String × Surroundings)) (m : Manager)
    → pending (close now writable begun m).1 ≡ 0
unfolding close persist_all
pending-close now writable begun m = ground (
  arith,
  count-interrupt now "bridge service stopped during transfer" "service_shutdown"
      (stop_all begun m).records,
)

mark_found-IsShorter :
    (e : Surroundings) (id : String) (r : Option TransferRecord) (m : Manager)
    → IsShorter (mark_found e id r m).1 m
unfolding mark_found
mark_found-IsShorter e id none m = (omega arith, refl)
mark_found-IsShorter e id (some r) m = ground (
  arith,
  mark_cancelled-cancelled e (work_on r m),
  count-put_le id_of is_pending (mark_cancelled e (work_on r m)).1.item m.records,
)

stopped-IsShorter :
    (begun : Option Surroundings) (id : String) (m : Manager) → IsShorter (stopped begun id m) m
stopped-IsShorter none id m = (omega arith, refl)
stopped-IsShorter (some e) id m = (run_task-IsWithin e id m, maximum-run_task e id m)

halt-IsShorter :
    (begun : Option Surroundings) (id : String) (m : Manager) → IsShorter (halt begun id m) m
unfolding halt
halt-IsShorter begun id m = ground (arith, stopped-IsShorter begun id m)

cancel-IsShorter :
    (e : Surroundings) (begun : Option Surroundings) (id : String) (m : Manager)
    → IsShorter (cancel e begun id m).1 m
unfolding cancel get
cancel-IsShorter e begun id m = ground (
  arith,
  halt-IsShorter begun id m,
  mark_found-IsShorter e id (find id_of id (halt begun id m).records) (halt begun id m),
)

perform-IsWithin : (c : Call) (m : Manager) → IsWithin m → IsWithin (perform c m)
unfolding close persist_all
perform-IsWithin (upload_file now w id serial spool original size directory policy) m h =
    enqueue_upload-IsWithin now w id serial spool original size directory policy m h
perform-IsWithin (download_file d now w id serial source profile_id custom policy) m h =
    enqueue_download-IsWithin d now w id serial source profile_id custom policy m h
perform-IsWithin (task_ends e id) m h =
    omega (arith, run_task-IsWithin e id m, maximum-run_task e id m, h)
perform-IsWithin (cancels e begun id) m h =
    omega (arith, (cancel-IsShorter e begun id m).0, (cancel-IsShorter e begun id m).1, h)
perform-IsWithin (closes now w begun) m h = omega (arith, pending-close now w begun m)

-- In every history of enqueued uploads and downloads, ended runs, cancellations and closes, whether
-- they return or raise, no more transfers are pending than the queue may hold.
pub history-IsWithin : (cs : List Call) (m : Manager) → IsWithin m → IsWithin (history cs m)
history-IsWithin [] m h = h
history-IsWithin (c ∷ cs) m h = history-IsWithin cs (perform c m) (perform-IsWithin c m h)
