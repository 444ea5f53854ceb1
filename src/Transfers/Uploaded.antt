-- ===== src/Transfers/Uploaded.antt =====
-- What a completed upload says of the device, and what becomes of one that leaves its spool file.
use mathlib.Core.Path.{subst}
use droid_web_display.Common.{
  sym, ◌⊎◌, inl, inr, String, true, false, ◌≡◌, refl, Option, none, some, is_some, lookup, Result,
  ok, err, arith,
}
use droid_web_display.Common.Ensures.{Ensures, continue-Ensures}
use droid_web_display.Transfers.Types.{
  TransferDirection, upload, download, cancelled, failed, Fault, Work, Surroundings, add_event,
  not_found, task_cancelled, os_error, conflict, validation, transfer_error,
}
use droid_web_display.Transfers.Runs.{
  persist, complete, after_push, push_to, run_upload, resolve_remote_duplicate,
}
use droid_web_display.Transfers.Execute.{
  by_direction, prepare, dispatch, attempt, handle, execute, require_ready_device,
}
use droid_web_display.Transfers.Completed.{IsUpload}
use droid_web_display.Transfers.Uploads.{pushed, resolve_remote_duplicate-same}
use droid_web_display.Transfers.Settled.{mark_failed-failed, mark_cancelled-cancelled}

handle_raised :
    (e : Surroundings) (r : Result Fault (Unit {0})) (w : Work)
    → ((u : Unit {0}) → r ≡ ok u → ⊥)
    → ((handle e r w).1.item.state ≡ cancelled) ⊎ ((handle e r w).1.item.state ≡ failed)
handle_raised e (ok u) w h = absurd (h u refl)
handle_raised e (err task_cancelled) w h = inl (mark_cancelled-cancelled e w).0
handle_raised e (err not_found) w h = inr (mark_failed-failed e not_found w).0
handle_raised e (err os_error) w h = inr (mark_failed-failed e os_error w).0
handle_raised e (err (conflict m)) w h = inr (mark_failed-failed e (conflict m) w).0
handle_raised e (err (validation m)) w h = inr (mark_failed-failed e (validation m) w).0
handle_raised e (err (transfer_error m)) w h = inr (mark_failed-failed e (transfer_error m) w).0

-- An upload whose spool file is there.
abbrev IsSpooled : String → Work → Type 0
IsSpooled local w =
    IsUpload w × (w.item.internal_local_path ≡ some local) × (is_some (lookup local w.files) ≡ true)

abbrev Never : Work → Type 0
Never w = ⊥

abbrev HasFile : String → Work → Type 0
HasFile local w = is_some (lookup local w.files) ≡ true

module _ (e : Surroundings) (stuck : e.removable ≡ false) where
  after_push-Never :
      (local destination : String) → Ensures (HasFile local) (after_push e local destination) Never
  unfolding after_push complete persist add_event
  after_push-Never local destination = record { at = λ w here u h. ground (arith, stuck) }

  push_to-Never :
      (local destination : String) → Ensures (HasFile local) (push_to e local destination) Never
  unfolding persist
  push_to-Never local destination = record {
    at = λ w here u h.
        ground (arith, (after_push-Never local destination).at (pushed e destination w) here u);
  }

  run_upload-Never : (local : String) → Ensures (HasFile local) (run_upload e local) Never
  unfolding run_upload
  run_upload-Never local = record {
    at = λ w here u h.
        let path = w.item.destination_path in
        let policy = w.item.duplicate_policy in
        continue-Ensures {Q = HasFile local} {R = Never}
          (resolve_remote_duplicate e path policy w).0 (push_to e local)
          (resolve_remote_duplicate e path policy w).1
          (λ a q. subst (HasFile local) (sym (resolve_remote_duplicate-same e path policy w)) here)
          (push_to-Never local) u h;
  }

  by_upload-Never :
      (local : String) (d : TransferDirection) (found : Option String)
      → d ≡ upload
      → found ≡ some local
      → Ensures (HasFile local) (by_direction e d found) Never
  by_upload-Never local d none u f = record { at = λ w p v h. cc }
  by_upload-Never local upload (some other) u f =
      let same : other ≡ local = cc (f) in rw same (run_upload-Never local)
  by_upload-Never local download (some other) u f = record { at = λ w p v h. cc (u) }

  prepare-IsSpooled :
      (local : String) (w : Work) → IsSpooled local w → IsSpooled local (prepare e w).1
  unfolding prepare persist require_ready_device add_event
  prepare-IsSpooled local w h = ground arith

  attempt-Never : (local : String) → Ensures (IsSpooled local) (attempt e) Never
  unfolding attempt dispatch
  attempt-Never local = record {
    at = λ w spooled u h.
        continue-Ensures {Q = IsSpooled local} {R = Never} (prepare e w).0 (λ u. dispatch e)
          (prepare e w).1 (λ a q. prepare-IsSpooled local w spooled)
          (λ u. record {
            at = λ v (up, path, here) u' k.
                (by_upload-Never local v.item.direction v.item.internal_local_path up path).at v
                  here u' k;
          })
          u h;
  }

  -- An upload whose spool file is there and cannot be removed does not end completed, whatever the
  -- device holds of it: the run ends cancelled or failed.
  pub execute_stuck :
      (local : String) (w : Work)
      → w.item.direction ≡ upload
      → w.item.internal_local_path ≡ some local
      → is_some (lookup local w.files) ≡ true
      → ((execute e w).1.item.state ≡ cancelled) ⊎ ((execute e w).1.item.state ≡ failed)
  unfolding execute
  execute_stuck local w up path here =
      handle_raised e (attempt e w).0 (attempt e w).1
        (λ u h. (attempt-Never local).at w (up, path, here) u h)
