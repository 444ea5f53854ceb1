-- ===== src/Transfers/Execute.antt =====
-- `_execute` of droid_web_display/transfers/manager.py: a run and what is made of its failure.
use droid_web_display.Common.{
  String, Option, none, some, str_eq, Result, ok, err, return, raise, lift, reads, require, ◌>>=◌,
  ◌>>◌,
}
use droid_web_display.Transfers.Types.{
  TransferRecord, TransferDirection, upload, download, preparing, cancelled, failed, Fault,
  task_cancelled, transfer_error, message, plain, reported, no_speed, add_event, Run, Surroundings,
}
use droid_web_display.Transfers.Names.{partial_path}
use droid_web_display.Transfers.Runs.{edit, persist, unlink, run_upload, run_download}

abbrev pub stale_partial : TransferRecord → Option String
stale_partial r = elim r.direction [
  | upload ↦ none
  | download ↦ elim r.internal_local_path [
    | none ↦ none
    | some local ↦ some (partial_path local r.transfer_id)
  ]
]

abbrev pub unlink_some : Surroundings → Option String → Run (Unit {0})
unlink_some e none = return tt
unlink_some e (some path) = unlink e path

unfoldable pub cleanup_partial : Surroundings → Run (Unit {0})
cleanup_partial e = do path ← reads (λ w. stale_partial w.item); unlink_some e path

unfoldable pub mark_cancelled : Surroundings → Run (Unit {0})
mark_cancelled e = do
  edit (λ r.
      add_event e.ended_at "cancelled" plain (record r {
        state = cancelled;
        ended_at = some e.ended_at;
        error = none;
        speed = no_speed;
      }))
  cleanup_partial e
  persist e

unfoldable pub mark_failed : Surroundings → Fault → Run (Unit {0})
mark_failed e f = do
  edit (λ r.
      add_event e.ended_at "failed" (reported (message f))
        (record r { state = failed; ended_at = some e.ended_at; error = some (message f) }))
  cleanup_partial e
  persist e

-- `assert record.internal_local_path`
abbrev pub by_direction : Surroundings → TransferDirection → Option String → Run (Unit {0})
by_direction e d none = raise (transfer_error "")
by_direction e upload (some local) = run_upload e local
by_direction e download (some local) = run_download e local

-- `_require_ready_device`
unfoldable pub require_ready_device : Surroundings → Run (Unit {0})
require_ready_device e = do
  state ← lift e.ready_state
  require (str_eq state "device") (transfer_error "Android device is not ready")

unfoldable pub prepare : Surroundings → Run (Unit {0})
prepare e = do
  edit (λ r.
      add_event e.prepared_at "preparing" plain
        (record r { state = preparing; started_at = some e.prepared_at }))
  persist e
  require_ready_device e

unfoldable pub dispatch : Surroundings → Run (Unit {0})
dispatch e = do
  d ← reads (λ w. w.item.direction)
  local ← reads (λ w. w.item.internal_local_path)
  by_direction e d local

unfoldable pub attempt : Surroundings → Run (Unit {0})
attempt e = do prepare e; dispatch e

abbrev pub handle : Surroundings → Result Fault (Unit {0}) → Run (Unit {0})
handle e (ok u) = return tt
handle e (err task_cancelled) = mark_cancelled e
handle e (err f) = mark_failed e f

unfoldable pub execute : Surroundings → Run (Unit {0})
execute e w = let (r, v) = attempt e w in handle e r v
