-- ===== src/Monitor/Observe.antt =====
-- One file of a watched folder: `_observe_android_entry` and `_observe_pc_entry` of
-- droid_web_display/transfers/monitor.py.
use droid_web_display.Common.{
  ℕ, ◌+◌, ◌-◌, String, Bool, true, false, not, ◌&&◌, ◌||◌, Option, none, some, List, [], ◌∷◌, leb,
  ltb, str_eq, if◌then◌else◌, Result, ok, err, erase, writes, ◌>>=◌,
}
use droid_web_display.Common.Table.{find, put, update}
use droid_web_display.Transfers.Types.{Fault, TransferRecord, Action, message}
use droid_web_display.Transfers.Queue.{enqueue_upload}
use droid_web_display.Transfers.Manager.{enqueue_download}
use droid_web_display.Transfers.Spool.{spool_local_file}
use droid_web_display.Monitor.Types.{
  Config, Print, same_print, FileStatus, pending, queueing, queued, baseline, completed, failed,
  deleted, processed, uploaded_from_pc, downloaded_from_android, Watched, Handled, Folder, Memory,
  World, Watch, Outside, LocalFile, notify,
}
use droid_web_display.Monitor.Config.{retry_delay, serial_or_empty}

abbrev pub path_of : Watched → String
path_of o = o.path

-- `fingerprint in self._processed`
unfoldable pub is_handled : Print → List Handled → Bool
is_handled p [] = false
is_handled p (h ∷ hs) = if same_print h.mark p then true else is_handled p hs

-- `self._processed[fingerprint] = now`
unfoldable pub handle : Print → ℕ → List Handled → List Handled
handle p now [] = (record { mark = p; since = now }) ∷ []
handle p now (h ∷ hs) =
    if same_print h.mark p
    then (record { mark = h.mark; since = now }) ∷ hs
    else h ∷ handle p now hs

abbrev pub print_of : String → ℕ → ℕ → Print
print_of path size modified = record { path = path; size = size; modified = modified }

abbrev pub fresh : ℕ → Print → FileStatus → ℕ → Watched
fresh now p status observations = record {
  path = p.path;
  size = p.size;
  modified = p.modified;
  fingerprint = p;
  first_seen_at = now;
  last_changed_at = now;
  stable_observations = observations;
  status = status;
  transfer_id = none;
  retry_count = 0;
  next_retry_at = 0;
  destination = none;
  deletion_result = none;
  error = none;
}

-- The entry of a file that is seen again, or for the first time in this form.
unfoldable pub seen : ℕ → Print → Option Watched → Watched
seen now p none = fresh now p pending 1
seen now p (some o) =
    if same_print o.fingerprint p
    then record o {
      stable_observations = o.stable_observations + 1;
      size = p.size;
      modified = p.modified;
    }
    else fresh now p pending 1

-- An empty id counts as none.
abbrev pub has_transfer : Option String → Bool
has_transfer none = false
has_transfer (some id) = not (str_eq id "")

unfoldable pub is_stable : Config → ℕ → Watched → Bool
is_stable c now o =
    leb c.stability_observations o.stable_observations && leb c.stability (now - o.last_changed_at)

abbrev pub with_status : FileStatus → Watched → Watched
with_status s o = record o { status = s }

-- What the first part of an observation makes of the entry, and whether it goes on to queue it.
-- `resting` are the statuses that a handled file keeps.
unfoldable pub judge : (FileStatus → Bool) → Config → ℕ → List Handled → Watched → Watched × Bool
judge resting c now handled o =
    if is_handled o.fingerprint handled
    then (if resting o.status then o else with_status processed o, false)
    else if has_transfer o.transfer_id
    then (o, false)
    else if not (is_stable c now o) || ltb now o.next_retry_at
    then (with_status pending o, false)
    else (with_status queueing o, true)

abbrev pub rests_android : FileStatus → Bool
rests_android completed = true
rests_android deleted = true
rests_android baseline = true
rests_android uploaded_from_pc = true
rests_android _ = false

abbrev pub rests_pc : FileStatus → Bool
rests_pc completed = true
rests_pc baseline = true
rests_pc downloaded_from_android = true
rests_pc _ = false

-- The first part of an observation, under the lock.
unfoldable pub note_entry : (FileStatus → Bool) → Config → ℕ → Print → Folder → Folder × Bool
note_entry resting c now p f =
    let (o, due) = judge resting c now f.handled (seen now p (find path_of p.path f.observed)) in
    (record f { observed = put path_of o f.observed }, due)

-- What the except branches of both observations write to an entry.
unfoldable pub postponed : ℕ → String → Watched → Watched
postponed now why o = record o {
  status = failed;
  error = some why;
  retry_count = o.retry_count + 1;
  next_retry_at = now + retry_delay (o.retry_count + 1);
}

abbrev pub in_queue : String → Watched → Watched
in_queue id o = record o { status = queued; transfer_id = some id; error = none }

abbrev pub change : String → (Watched → Watched) → Folder → Folder
change path f s = record s { observed = update path_of path f s.observed }

abbrev pub count_queued : Folder → Folder
count_queued f = record f { transfers_queued = f.transfers_queued + 1 }

abbrev pub on_android : (Folder → Folder) → Memory → Memory
on_android f m = record m { android = f m.android }

abbrev pub on_pc : (Folder → Folder) → Memory → Memory
on_pc f m = record m { pc = f m.pc }

abbrev pub edit : (Memory → Memory) → Watch (Unit {0})
edit f = writes (λ w. record w { memory = f w.memory })

-- What the transfer manager makes of a call, its exception as a value.
abbrev pub attempt : {A : Type 0} → Action A → World → Result Fault A × World
attempt a w = let (r, t) = a w.transfers in (r, record w { transfers = t })

abbrev pub tried : {A : Type 0} → Action A → Watch (Result Fault A)
tried a w = let (r, v) = attempt a w in (ok r, v)

-- The end of `_observe_android_entry`, with what queueing has made.
unfoldable pub finish_download : ℕ → Print → Result Fault TransferRecord → Watch (Unit {0})
finish_download now p (err f) = edit (λ m.
    notify now "queue-failed" p.path (on_android (change p.path (postponed now (message f))) m))
finish_download now p (ok r) = edit (λ m.
    notify now "download-queued" p.path
      (on_android (λ s. count_queued (change p.path (in_queue r.transfer_id) s)) m))

abbrev pub queue_download : Outside → Config → Print → Action TransferRecord
queue_download e c p =
    enqueue_download e.folders e.now e.writable (e.drawn p.path) (serial_or_empty c.serial) p.path
      c.destination_profile none c.duplicate_policy

unfoldable pub observe_android_entry : Outside → Print → Watch (Unit {0})
observe_android_entry e p w =
    let (f, due) = note_entry rests_android w.memory.config e.now p w.memory.android in
    let v = record w { memory = record w.memory { android = f } } in
    if due
    then (do r ← tried (queue_download e w.memory.config p); finish_download e.now p r) v
    else (ok tt, v)

-- The spool file goes where queueing it fails.
abbrev pub drop_spool : String → Result Fault TransferRecord → Action TransferRecord
drop_spool spool (ok r) t = (ok r, t)
drop_spool spool (err f) t = (err f, record t { files = erase spool t.files })

abbrev pub queue_spooled : Outside → Config → String × ℕ × String → Action TransferRecord
queue_spooled e c (spool, size, name) t =
    let (r, u) =
      enqueue_upload e.now e.writable (e.drawn spool) (serial_or_empty c.serial) spool name size
        c.source_path c.upload_duplicate_policy t in
    drop_spool spool r u

-- `spool_local_file` and `enqueue_upload` of a file under its name
unfoldable pub queue_upload : Outside → Config → String → String → Action TransferRecord
queue_upload e c path name = do
  let copy = e.copy_of path
  s ← spool_local_file copy.spool name copy.before copy.after copy.copied
  queue_spooled e c s

unfoldable pub finish_upload : ℕ → Print → Result Fault TransferRecord → Watch (Unit {0})
finish_upload now p (err f) = edit (λ m.
    notify now "upload-queue-failed" p.path (on_pc (change p.path (postponed now (message f))) m))
finish_upload now p (ok r) = edit (λ m.
    notify now "upload-queued" p.path
      (on_pc (λ s. count_queued (change p.path (in_queue r.transfer_id) s)) m))

abbrev pub local_print : LocalFile → Print
local_print f = print_of f.path f.size f.modified

unfoldable pub observe_pc_entry : Outside → LocalFile → Watch (Unit {0})
observe_pc_entry e l w =
    let (f, due) = note_entry rests_pc w.memory.config e.now (local_print l) w.memory.pc in
    let v = record w { memory = record w.memory { pc = f } } in
    if due
    then (do
      r ← tried (queue_upload e w.memory.config l.path l.name)
      finish_upload e.now (local_print l) r)
        v
    else (ok tt, v)
