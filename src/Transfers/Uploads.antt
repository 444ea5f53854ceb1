-- ===== src/Transfers/Uploads.antt =====
-- How the upload of a transfer ends.
use mathlib.Core.Path.{subst}
use droid_web_display.Common.{
  zero, suc, sym, ◌∙◌, Bool, false, continue, ℕ, String, true, ◌≡◌, refl, some, Result, ok, err,
  arith,
}
use droid_web_display.Common.Ensures.{Ensures, continue-Ensures}
use droid_web_display.Transfers.Types.{
  DuplicatePolicy, rename, overwrite, fail, AndroidStat, TransferRecord, Fault, Work, Surroundings,
  add_event, transferring, plain,
}
use droid_web_display.Transfers.Runs.{
  first_free, by_policy, exists, report, persist, after_push, complete, push_to,
  resolve_remote_duplicate, run_upload,
}
use droid_web_display.Transfers.Completed.{IsUploaded, IsUpload, report-bound}

abbrev IsBound : String → Work → Type 0
IsBound destination w = (w.item.destination_path ≡ destination) × IsUpload w

after_push-IsUploaded :
    (e : Surroundings) (local destination : String)
    → Ensures (IsBound destination) (after_push e local destination) (IsUploaded e)
unfolding after_push complete persist add_event
after_push-IsUploaded e local destination = record { at = λ w bound u h. ground arith }

-- The record of an upload when its push begins.
abbrev pub pushing : Surroundings → String → Work → TransferRecord
pushing e destination w =
    add_event e.transferring_at "transferring" plain
      (record w.item { destination_path = destination; state = transferring })

abbrev pub pushed : Surroundings → String → Work → Work
pushed e destination w = record w {
  item = report e.reports (pushing e destination w);
  saved = some (pushing e destination w);
}

pushing-IsBound :
    (e : Surroundings) (destination : String) (w : Work)
    → ((pushing e destination w).destination_path ≡ destination)
      × ((pushing e destination w).direction ≡ w.item.direction)
unfolding add_event
pushing-IsBound e destination w = (refl, refl)

push_to-IsUploaded :
    (e : Surroundings) (local destination : String)
    → Ensures IsUpload (push_to e local destination) (IsUploaded e)
unfolding persist
push_to-IsUploaded e local destination = record {
  at = λ w p u h. ground (
    arith,
    (after_push-IsUploaded e local destination).at (pushed e destination w)
        (
          (report-bound e.reports (pushing e destination w)).0
              ∙ (pushing-IsBound e destination w).0,
          (report-bound e.reports (pushing e destination w)).2
              ∙ (pushing-IsBound e destination w).1
              ∙ p,
        )
        u,
  );
}

first_free-same :
    (e : Surroundings) (path : String) (index fuel : ℕ) (w : Work)
    → (first_free e path index fuel w).1 ≡ w
unfolding first_free
first_free-same e path index zero w = refl
first_free-same e path index (suc fuel) w =
    ground (arith, first_free-same e path (suc index) fuel w)

by_policy-same :
    (e : Surroundings) (path : String) (policy : DuplicatePolicy) (b : Bool) (w : Work)
    → (by_policy e path policy b w).1 ≡ w
by_policy-same e path policy false w = refl
by_policy-same e path overwrite true w = refl
by_policy-same e path fail true w = refl
by_policy-same e path rename true w = first_free-same e path 1 9999 w

pub resolve_remote_duplicate-same :
    (e : Surroundings) (path : String) (policy : DuplicatePolicy) (w : Work)
    → (resolve_remote_duplicate e path policy w).1 ≡ w
unfolding resolve_remote_duplicate
resolve_remote_duplicate-same e path policy w = same (e.stat_of path)
  where
    same :
        (r : Result Fault AndroidStat)
        → (continue r (λ stat. by_policy e path policy (exists stat)) w).1 ≡ w
    same (ok stat) = by_policy-same e path policy (exists stat) w
    same (err f) = refl

pub run_upload-IsUploaded :
    (e : Surroundings) (local : String) → Ensures IsUpload (run_upload e local) (IsUploaded e)
unfolding run_upload
run_upload-IsUploaded e local = record {
  at = λ w p u h.
      continue-Ensures {Q = IsUpload}
        (resolve_remote_duplicate e w.item.destination_path w.item.duplicate_policy w).0
        (push_to e local)
        (resolve_remote_duplicate e w.item.destination_path w.item.duplicate_policy w).1
        (λ a q.
          subst IsUpload
            (sym
              (resolve_remote_duplicate-same e w.item.destination_path w.item.duplicate_policy w))
            p)
        (push_to-IsUploaded e local) u h;
}
