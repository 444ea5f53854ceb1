-- ===== src/Monitor/Reconcile.antt =====
-- What the monitor learns of its transfers: the two `_reconcile_…` methods of
-- droid_web_display/transfers/monitor.py.
use droid_web_display.Common.{
  ℕ, ◌+◌, ◌/◌, ◌%◌, String, Bool, true, false, not, ◌&&◌, Option, none, some, List, [], ◌∷◌, ◌++◌,
  keep, str_eq, is_some, ◌==◌, if◌then◌else◌, Result, ok, err, lift, return, reads, ◌>>=◌, ◌>>◌,
}
use droid_web_display.Common.Text.{chars, of_chars}
use droid_web_display.Common.Table.{find, put}
use droid_web_display.Transfers.Types.{
  Fault, transfer_error, message, TransferRecord, TransferState, completed, cancelled, interrupted,
  is_final, Manager,
}
use droid_web_display.Transfers.Queue.{id_of}
use droid_web_display.Monitor.Types.{
  Config, Print, FileStatus, uploaded_from_pc, downloaded_from_android, deleted, follows,
  verified_absent, deletion_failed, Watched, Folder, Memory, Watch, Outside, LocalFile, RemoteStat,
  notify,
}
use droid_web_display.Monitor.Config.{has_serial}
use droid_web_display.Monitor.Observe.{
  path_of, print_of, fresh, handle, is_handled, local_print, with_status, has_transfer, postponed,
  change, edit, on_android, on_pc,
}

abbrev pub transfer_of : Option String → Manager → Option TransferRecord
transfer_of none m = none
transfer_of (some id) m = find id_of id m.records

abbrev pub is_done : TransferState → Bool
is_done completed = true
is_done _ = false

abbrev pub is_size_match : Option String → Bool
is_size_match none = false
is_size_match (some v) = str_eq v "size-match"

-- A completed transfer whose sizes matched.
abbrev pub is_verified : TransferRecord → Bool
is_verified r = is_done r.state && is_size_match r.verification

-- The fingerprint is handled, and counted the first time.
unfoldable pub settle : ℕ → Print → Folder → Folder
settle now p f = if is_handled p f.handled then f else record f {
  handled = handle p now f.handled;
  transfers_completed = f.transfers_completed + 1;
}

abbrev pub arrived : String → Watched → Watched
arrived destination o = record o {
  status = FileStatus.completed;
  destination = some destination;
  error = none;
}

-- What the other folder gets from a transfer: an entry that is handled.
unfoldable pub adopt : Config → ℕ → FileStatus → Print → Folder → Folder
adopt c now status p f = record f {
  handled = handle p now f.handled;
  observed = put path_of (fresh now p status c.stability_observations) f.observed;
}

abbrev pub adopt_local : Config → ℕ → Option LocalFile → Folder → Folder
adopt_local c now none f = f
adopt_local c now (some l) f = adopt c now downloaded_from_android (local_print l) f

abbrev pub ended_as : TransferState → String
ended_as completed = "transfer ended as completed"
ended_as cancelled = "transfer ended as cancelled"
ended_as interrupted = "transfer ended as interrupted"
ended_as _ = "transfer ended as failed"

-- The reason that a transfer gives, where it gives one, or its final state.
abbrev pub reason_of : TransferRecord → String
reason_of r = elim r.error [
  | none ↦ ended_as r.state
  | some why ↦ if str_eq why "" then ended_as r.state else why
]

abbrev pub given_up : ℕ → TransferRecord → Watched → Watched
given_up now r o = record (postponed now (reason_of r) o) { transfer_id = none }

abbrev pub remote_exists : RemoteStat → Bool
remote_exists s = not (s.mode == 0)

abbrev pub remote_is_directory : RemoteStat → Bool
remote_is_directory s = (s.mode / 0o10000) % 0o20 == 0o4

abbrev pub is_absent : Result Fault (Unit {0}) → Result Fault RemoteStat → Result Fault (Unit {0})
is_absent (err f) s = err f
is_absent (ok u) (err f) = err f
is_absent (ok u) (ok s) =
    if remote_exists s
    then err (transfer_error "Android file still exists after deletion request")
    else ok tt

abbrev pub not_deleted : Fault → String
not_deleted f =
    of_chars (chars "download completed, but source deletion failed: " ++ chars (message f))

abbrev pub note_deletion : ℕ → String → Result Fault (Unit {0}) → Memory → Memory
note_deletion now path (err f) m = notify now "delete-failed" path (
    on_android
      (change path
        (λ o. record o { deletion_result = some deletion_failed; error = some (not_deleted f) }))
      m)
note_deletion now path (ok u) m =
    notify now "remote-deleted" path
      (record (on_android
        (change path (λ o. record o { status = deleted; deletion_result = some verified_absent }))
        m) { deletions_completed = m.deletions_completed + 1 })

-- `_delete_verified_remote`
unfoldable pub delete_verified_remote : Outside → String → Watch (Unit {0})
delete_verified_remote e path = edit (λ m.
    if has_serial m.config.serial
    then note_deletion e.now path (is_absent (e.removal path) (e.remote_stat path)) m
    else m)

abbrev pub note_completed : ℕ → String → Bool → String → Memory → Memory
note_completed now name known path m = if known then m else notify now name path m

abbrev pub wants_deletion : Config → Watched → Bool
wants_deletion c o = c.delete_after_verified && not (is_some o.deletion_result)

unfoldable pub finish_verified_download : Outside → Watched → TransferRecord → Watch (Unit {0})
finish_verified_download e o r = do
  edit (λ m.
      note_completed e.now "download-completed" (is_handled o.fingerprint m.android.handled) o.path
        (on_android (λ f. change o.path (arrived r.destination_path) (settle e.now o.fingerprint f))
          m))
  edit (λ m. on_pc (adopt_local m.config e.now (e.local_stat r.destination_path)) m)
  delete ← reads (λ w. wants_deletion w.memory.config o)
  if delete then delete_verified_remote e o.path else return tt

abbrev pub finish_failed :
    Outside
    → String
    → ((Folder → Folder) → Memory → Memory)
    → Watched
    → TransferRecord
    → Watch (Unit {0})
finish_failed e name side o r =
    edit (λ m. notify e.now name o.path (side (change o.path (given_up e.now r)) m))

abbrev pub reconcile_download : Outside → Watched → Option TransferRecord → Watch (Unit {0})
reconcile_download e o none = return tt
reconcile_download e o (some r) =
    if not (is_final r.state)
    then edit (on_android (change o.path (with_status (follows r.state))))
    else if is_verified r
    then finish_verified_download e o r
    else finish_failed e "download-failed" on_android o r

unfoldable pub reconcile_downloads : Outside → List Watched → Watch (Unit {0})
reconcile_downloads e [] = return tt
reconcile_downloads e (o ∷ os) = do
  r ← reads (λ w. transfer_of o.transfer_id w.transfers)
  reconcile_download e o r
  reconcile_downloads e os

-- What the device has of an upload.
abbrev pub adopt_remote : Config → ℕ → String → RemoteStat → Folder → Folder
adopt_remote c now path s f =
    if remote_exists s && not (remote_is_directory s)
    then adopt c now uploaded_from_pc (print_of path s.size s.modified) f
    else f

unfoldable pub finish_verified_upload : Outside → Watched → TransferRecord → Watch (Unit {0})
finish_verified_upload e o r = do
  edit (λ m.
      note_completed e.now "upload-completed" (is_handled o.fingerprint m.pc.handled) o.path
        (on_pc (λ f. change o.path (arrived r.destination_path) (settle e.now o.fingerprint f)) m))
  s ← lift (e.remote_stat r.destination_path)
  edit (λ m. on_android (adopt_remote m.config e.now r.destination_path s) m)

abbrev pub reconcile_upload : Outside → Watched → Option TransferRecord → Watch (Unit {0})
reconcile_upload e o none = return tt
reconcile_upload e o (some r) =
    if not (is_final r.state)
    then edit (on_pc (change o.path (with_status (follows r.state))))
    else if is_verified r
    then finish_verified_upload e o r
    else finish_failed e "upload-failed" on_pc o r

unfoldable pub reconcile_uploads : Outside → List Watched → Watch (Unit {0})
reconcile_uploads e [] = return tt
reconcile_uploads e (o ∷ os) = do
  r ← reads (λ w. transfer_of o.transfer_id w.transfers)
  reconcile_upload e o r
  reconcile_uploads e os

abbrev pub has_task : Watched → Bool
has_task o = has_transfer o.transfer_id

unfoldable pub reconcile_transfers : Outside → Watch (Unit {0})
reconcile_transfers e = do
  downloads ← reads (λ w. keep has_task w.memory.android.observed)
  reconcile_downloads e downloads
  uploads ← reads (λ w. keep has_task w.memory.pc.observed)
  reconcile_uploads e uploads
