-- ===== src/Transfers/Settled.antt =====
-- How a run of a transfer ends.
use droid_web_display.Common.{
  String, true, ◌≡◌, refl, ◌⊎◌, inl, inr, Option, none, is_some, some, Result, ok, err, arith,
}
use droid_web_display.Common.Ensures.{Ensures, Anything, continue-Ensures}
use droid_web_display.Transfers.Types.{
  TransferDirection, upload, download, cancelled, failed, Fault, not_found, task_cancelled,
  os_error, conflict, validation, transfer_error, Work, Surroundings, add_event,
}
use droid_web_display.Transfers.Runs.{persist}
use droid_web_display.Transfers.Execute.{
  cleanup_partial, mark_cancelled, mark_failed, by_direction, prepare, dispatch, attempt, handle,
  execute,
}
use droid_web_display.Transfers.Completed.{IsUploaded, IsDownloaded}
use droid_web_display.Transfers.Uploads.{run_upload-IsUploaded}
use droid_web_display.Transfers.Downloads.{run_download-IsDownloaded}

pub mark_failed-failed :
    (e : Surroundings) (f : Fault) (w : Work)
    → ((mark_failed e f w).1.item.state ≡ failed)
      × (is_some (mark_failed e f w).1.item.ended_at ≡ true)
unfolding mark_failed cleanup_partial persist add_event
mark_failed-failed e f w = ground arith

pub mark_cancelled-cancelled :
    (e : Surroundings) (w : Work)
    → ((mark_cancelled e w).1.item.state ≡ cancelled)
      × (is_some (mark_cancelled e w).1.item.ended_at ≡ true)
unfolding mark_cancelled cleanup_partial persist add_event
mark_cancelled-cancelled e w = ground arith

-- A completed run of either direction, with sizes that matched.
abbrev pub IsMatched : Surroundings → Work → Type 0
IsMatched e w = IsUploaded e w ⊎ IsDownloaded e w

-- Where a run ends: completed with matching sizes, cancelled or failed.
abbrev pub IsSettled : Surroundings → Work → Type 0
IsSettled e w =
    (is_some w.item.ended_at ≡ true)
    × (IsMatched e w ⊎ (w.item.state ≡ cancelled) ⊎ (w.item.state ≡ failed))

by_direction-IsMatched :
    (e : Surroundings) (d : TransferDirection) (local : Option String)
    → Ensures (λ w. w.item.direction ≡ d) (by_direction e d local) (IsMatched e)
by_direction-IsMatched e d none = record { at = λ w p u h. cc }
by_direction-IsMatched e upload (some local) = record {
  at = λ w p u h. inl ((run_upload-IsUploaded e local).at w p u h);
}
by_direction-IsMatched e download (some local) = record {
  at = λ w p u h. inr ((run_download-IsDownloaded e local).at w p u h);
}

attempt-IsMatched : (e : Surroundings) → Ensures Anything (attempt e) (IsMatched e)
unfolding attempt dispatch
attempt-IsMatched e = record {
  at = λ w p u h.
      continue-Ensures {Q = Anything} {R = IsMatched e} (prepare e w).0 (λ u. dispatch e)
        (prepare e w).1 (λ a q. tt)
        (λ u. record {
          at = λ v q u' k.
              (by_direction-IsMatched e v.item.direction v.item.internal_local_path).at v refl u' k;
        })
        u h;
}

mark_failed-IsSettled :
    (e : Surroundings) (f : Fault) (w : Work) → IsSettled e (mark_failed e f w).1
mark_failed-IsSettled e f w = ((mark_failed-failed e f w).1, inr (inr (mark_failed-failed e f w).0))

IsMatched-ended : (e : Surroundings) (w : Work) → IsMatched e w → is_some w.item.ended_at ≡ true
IsMatched-ended e w (inl m) = m.0.2
IsMatched-ended e w (inr m) = m.0.2

handle-IsSettled :
    (e : Surroundings) (r : Result Fault (Unit {0})) (w : Work)
    → ((u : Unit {0}) → r ≡ ok u → IsMatched e w)
    → IsSettled e (handle e r w).1
handle-IsSettled e (ok u) w h = (IsMatched-ended e w (h u refl), inl (h u refl))
handle-IsSettled e (err task_cancelled) w h =
    ((mark_cancelled-cancelled e w).1, inr (inl (mark_cancelled-cancelled e w).0))
handle-IsSettled e (err not_found) w h = mark_failed-IsSettled e not_found w
handle-IsSettled e (err os_error) w h = mark_failed-IsSettled e os_error w
handle-IsSettled e (err (conflict m)) w h = mark_failed-IsSettled e (conflict m) w
handle-IsSettled e (err (validation m)) w h = mark_failed-IsSettled e (validation m) w
handle-IsSettled e (err (transfer_error m)) w h = mark_failed-IsSettled e (transfer_error m) w

-- A run ends in a final state with its end time, whatever raises on its way, a write of the state
-- file included. It is completed only with sizes that matched: of an upload, the size that the
-- device gives for the destination is the number of transferred bytes and the size of the record; of
-- a download, the size of the partial file and the one that the device gave for the source are that
-- number.
pub execute-IsSettled : (e : Surroundings) (w : Work) → IsSettled e (execute e w).1
unfolding execute
execute-IsSettled e w =
    handle-IsSettled e (attempt e w).0 (attempt e w).1 (λ u h. (attempt-IsMatched e).at w tt u h)
