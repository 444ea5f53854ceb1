-- ===== src/Transfers/Tests.antt =====
-- The transfers at concrete inputs.
use droid_web_display.Common.{
  ◌⊎◌, length, ◌≤◌, true, false, ◌≡◌, refl, none, some, List, [], ◌∷◌, ok, err, arith, lookup,
}
use droid_web_display.Common.Table.{find}
use droid_web_display.Common.Text.{skip, skip_last, chars, of_chars, is_prefix, is_space}
use droid_web_display.Transfers.Types.{
  TransferRecord, Manager, Surroundings, Work, upload, cancelled, failed, rename, os_error,
}
use droid_web_display.Transfers.Names.{numbered, split_last}
use droid_web_display.Transfers.Paths.{
  normalize_android_path, canonicalize_android_path, is_allowed_android_path, parts,
}
use droid_web_display.Transfers.SafeNames.{IsClean, sanitized-IsClean}
use droid_web_display.Transfers.Filenames.{sanitized, sanitize_filename, join_android_path}
use droid_web_display.Transfers.Execute.{execute}
use droid_web_display.Transfers.Settled.{IsSettled, execute-IsSettled}
use droid_web_display.Transfers.Uploaded.{execute_stuck}
use droid_web_display.Transfers.Queue.{new_record}
use droid_web_display.Transfers.Manager.{retry, close}
use droid_web_display.Transfers.Capacity.{IsWithin, pending, retry-exceeds}
use droid_web_display.Transfers.Calls.{
  upload_file, cancels, closes, history, history-IsWithin, pending-close,
}

numbered_photo : numbered "/sdcard/DCIM/photo.jpg" 12 ≡ "/sdcard/DCIM/photo (12).jpg"
unfolding numbered
numbered_photo = refl

joined :
    join_android_path "/storage/emulated/0/download/./x" "../a:b?. " ≡ ok "/sdcard/Download/x/a_b_"
unfolding join_android_path normalize_android_path canonicalize_android_path is_allowed_android_path
    sanitize_filename split_last skip_last skip is_space
joined = refl

reserved_name : sanitize_filename "con.txt" ≡ "_con.txt"
unfolding sanitize_filename of_chars is_prefix split_last skip_last skip parts chars is_space
reserved_name = refl

abbrev photo : TransferRecord
photo = record (new_record 5 "t1" upload "phone" rename) {
  destination_path = "/sdcard/DCIM/a.jpg";
  internal_local_path = some "spool/a";
}

abbrev photo_work : Work
photo_work = record { item = photo; files = ("spool/a", 3) ∷ []; saved = none }

-- A phone that has nothing under the path before the push, and the whole file after it.
abbrev phone : Surroundings
phone = record {
  prepared_at = 10;
  transferring_at = 11;
  verifying_at = 12;
  completed_at = 13;
  scanned_at = 14;
  ended_at = 15;
  ready_state = ok "device";
  stat_of = λ path. ok (record { mode = 0; size = 0 });
  made_parent = λ path. ok tt;
  reports = (2, some 3, 1) ∷ (3, some 3, 2) ∷ [];
  sent = ok tt;
  arrived = λ path. ok (record { mode = 0o100664; size = 3 });
  pulled = ok tt;
  partial_size = none;
  scan = some (err os_error);
  writable = true;
  removable = true;
}

abbrev stuck_phone : Surroundings
stuck_phone = record phone { removable = false }

execute-IsSettled_example : IsSettled phone (execute phone photo_work).1
execute-IsSettled_example = execute-IsSettled phone photo_work

execute_stuck_example :
    ((execute stuck_phone photo_work).1.item.state ≡ cancelled)
    ⊎ ((execute stuck_phone photo_work).1.item.state ≡ failed)
unfolding lookup
execute_stuck_example = execute_stuck stuck_phone refl "spool/a" photo_work refl refl refl

abbrev small_queue : List TransferRecord → Manager
small_queue rs = record {
  records = rs;
  tasks = [];
  files = ("spool/a", 3) ∷ [];
  disk = none;
  maximum_queue_length = 1;
  maximum_file_size = 100;
  started = true;
}

abbrev failed_photo : TransferRecord
failed_photo = record photo { state = failed }

abbrev other_photo : TransferRecord
other_photo = record photo { transfer_id = "t2" }

retry-exceeds_example :
    ¬ IsWithin (retry 20 true "t1" (small_queue (failed_photo ∷ other_photo ∷ []))).1
unfolding find lookup
retry-exceeds_example =
    retry-exceeds 20 "t1" failed_photo (small_queue (failed_photo ∷ other_photo ∷ [])) refl refl
      refl refl

history-IsWithin_example : IsWithin (
    history
      (upload_file 20 true "t3" "phone" "spool/b" "b.txt" 4 "/sdcard/Download" rename
        ∷ cancels phone none "t3"
        ∷ closes 30 true []
        ∷ [])
      (small_queue []))
history-IsWithin_example =
    history-IsWithin
      (upload_file 20 true "t3" "phone" "spool/b" "b.txt" 4 "/sdcard/Download" rename
        ∷ cancels phone none "t3"
        ∷ closes 30 true []
        ∷ [])
      (small_queue []) (omega arith)

pending-close_example :
    pending (close 30 true (("t2", phone) ∷ []) (small_queue (other_photo ∷ []))).1 ≡ 0
pending-close_example = pending-close 30 true (("t2", phone) ∷ []) (small_queue (other_photo ∷ []))

sanitized-IsClean_example :
    IsClean (sanitized "../a:b?.txt")
    × (1 ≤ length (sanitized "../a:b?.txt"))
    × (length (sanitized "../a:b?.txt") ≤ 240)
sanitized-IsClean_example = sanitized-IsClean "../a:b?.txt"
