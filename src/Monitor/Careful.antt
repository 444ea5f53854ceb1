-- ===== src/Monitor/Careful.antt =====
-- What the parts of a scan leave of the transfer queue.
use droid_web_display.Common.{
  Bool, true, false, ◌||◌, List, [], ◌∷◌, Option, none, some, Result, ok, err, continue, arith,
  ◌>>=◌, ◌>>◌, reads, keep, map, length,
}
use droid_web_display.Transfers.Types.{Fault, TransferRecord}
use droid_web_display.Transfers.Destinations.{profile}
use droid_web_display.Monitor.Types.{Config, Print, World, Watch, Outside, LocalFile, Watched}
use droid_web_display.Monitor.Observe.{
  observe_android_entry, observe_pc_entry, edit, on_android, on_pc,
}
use droid_web_display.Monitor.Scan.{
  see, begun, observe_android, observe_pc, sweep_android, sweep_pc, scan_android, scan_pc,
  entry_print, is_watched_entry, is_watched_file,
}
use droid_web_display.Monitor.Reconcile.{
  reconcile_download, reconcile_downloads, reconcile_upload, reconcile_uploads, reconcile_transfers,
  finish_verified_download, finish_verified_upload, delete_verified_remote, transfer_of, has_task,
}
use droid_web_display.Monitor.Service.{persist, sweep, when, guarded, resting_phase}
use droid_web_display.Monitor.Trim.{trim_processed}
use droid_web_display.Monitor.Capacity.{
  Within, observe_android_entry-Within, observe_pc_entry-Within,
}

-- What leaves the queue within its limit, whether it returns or raises.
abbrev pub IsCareful : {A : Type 0} → Watch A → Type 0
IsCareful m = (w : World) → Within w → Within (m w).1

continue-Within :
    {A : Type 0} (r : Result Fault A) (f : A → Watch (Unit {0})) (v : World)
    → ((a : A) → IsCareful (f a))
    → Within v
    → Within (continue r f v).1
continue-Within (ok a) f v k h = k a v h
continue-Within (err x) f v k h = h

then-IsCareful :
    {A : Type 0} (m : Watch A) (f : A → Watch (Unit {0}))
    → IsCareful m
    → ((a : A) → IsCareful (f a))
    → IsCareful (m >>= f)
then-IsCareful m f a b w h = continue-Within (m w).0 f (m w).1 b (a w h)

persist-IsCareful : (b : Bool) → IsCareful (persist b)
unfolding persist
persist-IsCareful b w h = ground arith

observe_android-IsCareful : (e : Outside) (ps : List Print) → IsCareful (observe_android e ps)
unfolding observe_android
observe_android-IsCareful e [] w h = h
observe_android-IsCareful e (p ∷ ps) w h =
    then-IsCareful (observe_android_entry e p) (λ _. observe_android e ps)
      (observe_android_entry-Within e p) (λ _. observe_android-IsCareful e ps) w h

observe_pc-IsCareful : (e : Outside) (ls : List LocalFile) → IsCareful (observe_pc e ls)
unfolding observe_pc
observe_pc-IsCareful e [] w h = h
observe_pc-IsCareful e (l ∷ ls) w h =
    then-IsCareful (observe_pc_entry e l) (λ _. observe_pc e ls) (observe_pc_entry-Within e l)
      (λ _. observe_pc-IsCareful e ls) w h

sweep_android-IsCareful : (e : Outside) (ps : List Print) → IsCareful (sweep_android e ps)
unfolding sweep_android
sweep_android-IsCareful e ps w h =
    let v = record w { memory = on_android begun (on_android (see (length ps)) w.memory) } in
    ground (arith, observe_android-IsCareful e ps v h)

sweep_pc-IsCareful : (e : Outside) (ls : List LocalFile) → IsCareful (sweep_pc e ls)
unfolding sweep_pc
sweep_pc-IsCareful e ls w h =
    let v = record w { memory = on_pc begun (on_pc (see (length ls)) w.memory) } in
    ground (arith, observe_pc-IsCareful e ls v h)

scan_android-IsCareful : (e : Outside) → IsCareful (scan_android e)
unfolding scan_android
scan_android-IsCareful e w h =
    continue-Within e.listed (λ es. sweep_android e (map entry_print (keep is_watched_entry es))) w
      (λ es. sweep_android-IsCareful e (map entry_print (keep is_watched_entry es))) h

scan_pc-IsCareful : (e : Outside) → IsCareful (scan_pc e)
unfolding scan_pc
scan_pc-IsCareful e w h =
    continue-Within (profile e.folders w.memory.config.destination_profile)
      (λ _. sweep_pc e (keep is_watched_file e.local_files)) w
      (λ _. sweep_pc-IsCareful e (keep is_watched_file e.local_files)) h

reconcile_download-IsCareful :
    (e : Outside) (o : Watched) (r : Option TransferRecord) → IsCareful (reconcile_download e o r)
unfolding finish_verified_download delete_verified_remote
reconcile_download-IsCareful e o none w h = h
reconcile_download-IsCareful e o (some r) w h = ground arith

reconcile_downloads-IsCareful :
    (e : Outside) (os : List Watched) → IsCareful (reconcile_downloads e os)
unfolding reconcile_downloads
reconcile_downloads-IsCareful e [] w h = h
reconcile_downloads-IsCareful e (o ∷ os) w h =
    let r = transfer_of o.transfer_id w.transfers in
    then-IsCareful (reconcile_download e o r) (λ _. reconcile_downloads e os)
      (reconcile_download-IsCareful e o r) (λ _. reconcile_downloads-IsCareful e os) w h

reconcile_upload-IsCareful :
    (e : Outside) (o : Watched) (r : Option TransferRecord) → IsCareful (reconcile_upload e o r)
unfolding finish_verified_upload
reconcile_upload-IsCareful e o none w h = h
reconcile_upload-IsCareful e o (some r) w h = ground arith

reconcile_uploads-IsCareful : (e : Outside) (os : List Watched) → IsCareful (reconcile_uploads e os)
unfolding reconcile_uploads
reconcile_uploads-IsCareful e [] w h = h
reconcile_uploads-IsCareful e (o ∷ os) w h =
    let r = transfer_of o.transfer_id w.transfers in
    then-IsCareful (reconcile_upload e o r) (λ _. reconcile_uploads e os)
      (reconcile_upload-IsCareful e o r) (λ _. reconcile_uploads-IsCareful e os) w h

abbrev upload_round : Outside → Watch (Unit {0})
upload_round e = reads (λ w. keep has_task w.memory.pc.observed) >>= reconcile_uploads e

reconcile_transfers-IsCareful : (e : Outside) → IsCareful (reconcile_transfers e)
unfolding reconcile_transfers
reconcile_transfers-IsCareful e w h =
    then-IsCareful (reconcile_downloads e (keep has_task w.memory.android.observed))
      (λ _. upload_round e)
      (reconcile_downloads-IsCareful e (keep has_task w.memory.android.observed))
      (λ _ v k. reconcile_uploads-IsCareful e (keep has_task v.memory.pc.observed) v k) w h

when-IsCareful : (b : Bool) (m : Watch (Unit {0})) → IsCareful m → IsCareful (when b m)
when-IsCareful true m h w k = h w k
when-IsCareful false m h w k = k

abbrev conclude : Outside → Config → Watch (Unit {0})
conclude e c =
    edit (λ m.
      trim_processed
        (record m { phase = resting_phase c; last_success_at = some e.now; last_error = none }))
    >> persist e.writable

conclude-IsCareful : (e : Outside) (c : Config) → IsCareful (conclude e c)
conclude-IsCareful e c w h = persist-IsCareful e.writable _ h

pub sweep-IsCareful : (e : Outside) (force : Bool) (c : Config) → IsCareful (sweep e force c)
unfolding sweep
sweep-IsCareful e force c =
    then-IsCareful (reconcile_transfers e)
      (λ _.
        when (c.enabled || force) (scan_android e)
        >> (when c.pc_to_android_enabled (scan_pc e) >> conclude e c))
      (reconcile_transfers-IsCareful e)
      (λ _.
        then-IsCareful (when (c.enabled || force) (scan_android e))
          (λ _. when c.pc_to_android_enabled (scan_pc e) >> conclude e c)
          (when-IsCareful (c.enabled || force) (scan_android e) (scan_android-IsCareful e))
          (λ _.
            then-IsCareful (when c.pc_to_android_enabled (scan_pc e)) (λ _. conclude e c)
              (when-IsCareful c.pc_to_android_enabled (scan_pc e) (scan_pc-IsCareful e))
              (λ _. conclude-IsCareful e c)))

pub guarded-IsCareful :
    (e : Outside) (force : Bool) (r : Result Fault (Unit {0})) → IsCareful (guarded e force r)
unfolding persist
guarded-IsCareful e force (ok u) w h = h
guarded-IsCareful e force (err f) w h = ground arith
