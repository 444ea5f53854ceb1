-- ===== src/Monitor/Bounce.antt =====
-- A file that one direction has brought is not taken back by the other.
use droid_web_display.Common.{ℕ, true, false, ◌≡◌, ◌∙◌, arith, some, ok}
use droid_web_display.Transfers.Types.{TransferRecord}
use droid_web_display.Monitor.Types.{
  FileStatus, Print, Folder, Config, World, Outside, notify, Watched, RemoteStat, LocalFile,
}
use droid_web_display.Monitor.Observe.{
  print_of, local_print, is_handled, observe_android_entry, observe_pc_entry,
}
use droid_web_display.Monitor.Reconcile.{
  finish_verified_upload, finish_verified_download, delete_verified_remote, adopt, remote_exists,
  remote_is_directory,
}
use droid_web_display.Monitor.Marks.{
  is_handled-handle_self, observe_android_entry-handled, observe_pc_entry-handled,
}

adopt-handled :
    (c : Config) (now : ℕ) (s : FileStatus) (p : Print) (f : Folder)
    → is_handled p (adopt c now s p f).handled ≡ true
unfolding adopt
adopt-handled c now s p f = is_handled-handle_self p now f.handled

upload_marks :
    (e : Outside) (o : Watched) (r : TransferRecord) (s : RemoteStat) (w : World)
    → e.remote_stat r.destination_path ≡ ok s
    → remote_exists s ≡ true
    → remote_is_directory s ≡ false
    → (is_handled
          (print_of r.destination_path s.size s.modified)
          (finish_verified_upload e o r w).1.memory.android.handled
        ≡ true)
      × ((finish_verified_upload e o r w).1.transfers ≡ w.transfers)
unfolding finish_verified_upload notify
upload_marks e o r s w h there file = rw (h, there, file) (adopt-handled _ _ _ _ _, ground arith)

download_marks :
    (e : Outside) (o : Watched) (r : TransferRecord) (l : LocalFile) (w : World)
    → e.local_stat r.destination_path ≡ some l
    → (is_handled (local_print l) (finish_verified_download e o r w).1.memory.pc.handled ≡ true)
      × ((finish_verified_download e o r w).1.transfers ≡ w.transfers)
unfolding finish_verified_download delete_verified_remote notify adopt
download_marks e o r l w h =
    rw h (
      ground (arith, is_handled-handle_self (local_print l) e.now w.memory.pc.handled),
      ground arith,
    )

-- A file that an upload has left on the device, as the device reports it when the upload is
-- reconciled, is not downloaded by a later observation, at any time and in any surroundings.
pub observe_android_entry-finish_verified_upload :
    (e d : Outside) (o : Watched) (r : TransferRecord) (s : RemoteStat) (w : World)
    → e.remote_stat r.destination_path ≡ ok s
    → remote_exists s ≡ true
    → remote_is_directory s ≡ false
    → (observe_android_entry d
        (print_of r.destination_path s.size s.modified)
        (finish_verified_upload e o r w).1).1.transfers
      ≡ w.transfers
observe_android_entry-finish_verified_upload e d o r s w h there file =
    let m = upload_marks e o r s w h there file in
    (observe_android_entry-handled d (print_of r.destination_path s.size s.modified)
      (finish_verified_upload e o r w).1 m.0).0
    ∙ m.1

-- A file that a download has left on the PC, as it is found when the download is reconciled, is not
-- uploaded by a later observation, at any time and in any surroundings.
pub observe_pc_entry-finish_verified_download :
    (e d : Outside) (o : Watched) (r : TransferRecord) (l : LocalFile) (w : World)
    → e.local_stat r.destination_path ≡ some l
    → (observe_pc_entry d l (finish_verified_download e o r w).1).1.transfers ≡ w.transfers
observe_pc_entry-finish_verified_download e d o r l w h =
    let m = download_marks e o r l w h in
    observe_pc_entry-handled d l (finish_verified_download e o r w).1 m.0 ∙ m.1
