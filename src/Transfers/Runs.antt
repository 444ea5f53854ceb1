-- ===== src/Transfers/Runs.antt =====
-- The run of one transfer: `_execute` of droid_web_display/transfers/manager.py and what it calls.
-- A run has its record to itself, and the files; the folders of the files are taken to be there.
use droid_web_display.Common.{
  ℕ, zero, suc, ◌/◌, ◌%◌, max, String, Bool, true, false, not, ◌&&◌, Option, none, some, List, [],
  ◌∷◌, ◌==◌, if◌then◌else◌, Dict, lookup, insert, erase, is_some, Result, ok, err, return, raise,
  lift, reads, writes, require, ◌>>=◌, ◌>>◌,
}
use droid_web_display.Transfers.Types.{
  TransferRecord, TransferState, transferring, verifying, completed, DuplicatePolicy, rename,
  overwrite, fail, Fault, os_error, task_cancelled, conflict, validation, transfer_error, message,
  plain, reported, verified, no_speed, add_event, AndroidStat, Run, Surroundings,
}
use droid_web_display.Transfers.Names.{numbered, parent, partial_path}

-- An assignment to the record.
abbrev pub edit : (TransferRecord → TransferRecord) → Run (Unit {0})
edit f = writes (λ w. record w { item = f w.item })

abbrev pub note : ℕ → String → Run (Unit {0})
note now event = edit (add_event now event plain)

-- `_persist`, of which a run sees its own record.
unfoldable pub persist : Surroundings → Run (Unit {0})
persist e w = if e.writable then (ok tt, record w { saved = some w.item }) else (err os_error, w)

abbrev pub exists : AndroidStat → Bool
exists s = not (s.mode == 0)

-- `(mode & 0o170000) == 0o040000`
abbrev pub is_directory : AndroidStat → Bool
is_directory s = (s.mode / 0o10000) % 0o20 == 0o4

-- The loop of `_resolve_remote_duplicate`: as many names as the fuel, from an index on.
unfoldable pub first_free : Surroundings → String → ℕ → ℕ → Run String
first_free e path index zero = raise (conflict "unable to resolve duplicate Android filename")
first_free e path index (suc fuel) = do
  stat ← lift (e.stat_of (numbered path index))
  if exists stat then first_free e path (suc index) fuel else return (numbered path index)

abbrev pub by_policy : Surroundings → String → DuplicatePolicy → Bool → Run String
by_policy e path policy false = return path
by_policy e path overwrite true = return path
by_policy e path fail true = raise (conflict "Android destination already exists")
by_policy e path rename true = first_free e path 1 9999

unfoldable pub resolve_remote_duplicate : Surroundings → String → DuplicatePolicy → Run String
resolve_remote_duplicate e path policy = do
  stat ← lift (e.stat_of path)
  by_policy e path policy (exists stat)

-- The local function `progress` of a run, at each report.
unfoldable pub report : List (ℕ × Option ℕ × ℕ) → TransferRecord → TransferRecord
report [] r = r
report ((done, total, elapsed) ∷ reports) r = report reports (record r {
  bytes_transferred = done;
  size = elim total [ none ↦ r.size | some zero ↦ r.size | some (suc n) ↦ some (suc n) ];
  speed = record { bytes = done; millis = max elapsed 1 };
})

unfoldable pub complete : Surroundings → Run (Unit {0})
complete e = do
  edit (λ r.
      add_event e.completed_at "completed" (verified r.verification)
        (record r { state = completed; ended_at = some e.completed_at; speed = no_speed }))
  persist e

-- A failed scan is noted; a cancellation is no `Exception`, and passes.
abbrev pub scanned : ℕ → Option (Result Fault (Unit {0})) → Run (Unit {0})
scanned now none = return tt
scanned now (some (ok u)) = return tt
scanned now (some (err task_cancelled)) = raise task_cancelled
scanned now (some (err f)) = edit (add_event now "media_scan_failed" (reported (message f)))

abbrev pub unlink : Surroundings → String → Run (Unit {0})
unlink e path w =
    if is_some (lookup path w.files) && not e.removable
    then (err os_error, w)
    else (ok tt, record w { files = erase path w.files })

abbrev pub enter : ℕ → TransferState → String → Run (Unit {0})
enter now state event = edit (λ r. add_event now event plain (record r { state = state }))

abbrev pub local_size : String → Run ℕ
local_size path w = elim (lookup path w.files) [ none ↦ (err os_error, w) | some n ↦ (ok n, w) ]

abbrev pub housekeep : Surroundings → String → Run (Unit {0})
housekeep e local = do
  scanned e.scanned_at e.scan
  unlink e local
  edit (λ r. record r { internal_local_path = none })
  persist e

abbrev pub verify_upload : Surroundings → String → String → Run (Unit {0})
verify_upload e local destination = do
  enter e.verifying_at verifying "verifying"
  remote ← lift (e.arrived destination)
  expected ← local_size local
  require (exists remote && remote.size == expected) (transfer_error "upload verification failed")
  edit (λ r. record r {
    bytes_transferred = expected;
    size = some expected;
    verification = some "size-match";
  })
  complete e

-- What follows the push once it has ended.
unfoldable pub after_push : Surroundings → String → String → Run (Unit {0})
after_push e local destination = do
  lift e.sent
  verify_upload e local destination
  housekeep e local

abbrev pub push_to : Surroundings → String → String → Run (Unit {0})
push_to e local destination = do
  edit (λ r. record r { destination_path = destination })
  lift (e.made_parent (parent destination))
  enter e.transferring_at transferring "transferring"
  persist e
  edit (report e.reports)
  after_push e local destination

unfoldable pub run_upload : Surroundings → String → Run (Unit {0})
run_upload e local = do
  path ← reads (λ w. w.item.destination_path)
  policy ← reads (λ w. w.item.duplicate_policy)
  destination ← resolve_remote_duplicate e path policy
  push_to e local destination

-- The loop of `resolve_duplicate` in droid_web_display/transfers/paths.py, whose `FileExistsError`
-- is a conflict here. A path exists where the manager's files have it.
unfoldable pub first_free_local : Dict ℕ → String → ℕ → ℕ → Result Fault String
first_free_local files path index zero = err (conflict "unable to resolve duplicate filename")
first_free_local files path index (suc fuel) =
    let rest = first_free_local files path (suc index) fuel in
    if is_some (lookup (numbered path index) files) then rest else ok (numbered path index)

abbrev pub by_local_policy : Dict ℕ → String → DuplicatePolicy → Bool → Result Fault String
by_local_policy files path policy false = ok path
by_local_policy files path overwrite true = ok path
by_local_policy files path fail true = err (conflict path)
by_local_policy files path rename true = first_free_local files path 1 9999

unfoldable pub resolve_duplicate : Dict ℕ → String → DuplicatePolicy → Result Fault String
resolve_duplicate files path policy =
    by_local_policy files path policy (is_some (lookup path files))

-- `try: … finally: partial.unlink(missing_ok=True)`; a removal that fails replaces the outcome.
abbrev pub finally_unlink : Surroundings → String → Run (Unit {0}) → Run (Unit {0})
finally_unlink e path body w =
    let (r, v) = body w in
    let (u, x) = unlink e path v in elim u [ ok t ↦ (r, x) | err f ↦ (err f, x) ]

-- `partial.replace(final_path)`
abbrev pub move : String → String → ℕ → Run (Unit {0})
move partial final n = writes (λ w. record w { files = insert final n (erase partial w.files) })

abbrev pub left_behind : Option ℕ → String → Run (Unit {0})
left_behind none partial = return tt
left_behind (some n) partial = writes (λ w. record w { files = insert partial n w.files })

abbrev pub size_found : Option ℕ → Run ℕ
size_found none = raise os_error
size_found (some n) = return n

unfoldable pub fetch : Surroundings → AndroidStat → String → String → Run (Unit {0})
fetch e remote partial final = do
  left_behind e.partial_size partial
  edit (report e.reports)
  lift e.pulled
  enter e.verifying_at verifying "verifying"
  found ← size_found e.partial_size
  require (found == remote.size) (transfer_error "download verification failed")
  move partial final found

abbrev pub download_to : Surroundings → AndroidStat → String → String → Run (Unit {0})
download_to e remote partial final = do
  edit (λ r. record r { size = some remote.size })
  enter e.transferring_at transferring "transferring"
  persist e
  finally_unlink e partial (fetch e remote partial final)
  edit (λ r. record r { bytes_transferred = remote.size; verification = some "size-match" })
  complete e

abbrev pub download_as : Surroundings → String → Run (Unit {0})
download_as e final = do
  edit (λ r. record r { destination_path = final; internal_local_path = some final })
  source ← reads (λ w. w.item.source_path)
  id ← reads (λ w. w.item.transfer_id)
  remote ← lift (e.stat_of source)
  require (exists remote && not (is_directory remote))
      (validation "download source is not a regular file")
  download_to e remote (partial_path final id) final

unfoldable pub run_download : Surroundings → String → Run (Unit {0})
run_download e local = do
  files ← reads (λ w. w.files)
  policy ← reads (λ w. w.item.duplicate_policy)
  final ← lift (resolve_duplicate files local policy)
  download_as e final
