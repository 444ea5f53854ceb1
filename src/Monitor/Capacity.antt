-- ===== src/Monitor/Capacity.antt =====
-- The monitor works through the transfer queue: what a scan does to it.
use droid_web_display.Common.{ℕ, String, Option, none, some, Result, ok, err, arith, continue}
use droid_web_display.Transfers.Types.{Fault, Manager}
use droid_web_display.Transfers.Spool.{spool_local_file, LocalStat}
use droid_web_display.Transfers.Capacity.{
  IsWithin, enqueue_upload-IsWithin, enqueue_download-IsWithin,
}
use droid_web_display.Monitor.Types.{Config, Print, World, Outside, LocalFile}
use droid_web_display.Monitor.Config.{serial_or_empty}
use droid_web_display.Monitor.Observe.{
  observe_android_entry, observe_pc_entry, queue_upload, queue_spooled, finish_download,
  finish_upload,
}

-- The transfer queue holds no more than it may.
abbrev pub Within : World → Type 0
Within w = IsWithin w.transfers

queue_spooled-IsWithin :
    (e : Outside) (c : Config) (s : String × ℕ × String) (m : Manager)
    → IsWithin m
    → IsWithin (queue_spooled e c s m).1
queue_spooled-IsWithin e c (spool, size, name) m h = ground (
  arith,
  enqueue_upload-IsWithin e.now e.writable (e.drawn spool) (serial_or_empty c.serial) spool name
      size c.source_path c.upload_duplicate_policy m h,
)

spool-IsWithin :
    (spool name : String) (before : Option LocalStat) (after : LocalStat) (copy : Option ℕ)
    (m : Manager)
    → IsWithin m
    → IsWithin (spool_local_file spool name before after copy m).1
unfolding spool_local_file
spool-IsWithin spool name none after copy m h = h
spool-IsWithin spool name (some before) after copy m h = ground arith

queue_upload-IsWithin :
    (e : Outside) (c : Config) (path name : String) (m : Manager)
    → IsWithin m
    → IsWithin (queue_upload e c path name m).1
unfolding queue_upload
queue_upload-IsWithin e c path name m h =
    after_spool
      (spool_local_file (e.copy_of path).spool name (e.copy_of path).before (e.copy_of path).after
        (e.copy_of path).copied m).0
      _
      (spool-IsWithin (e.copy_of path).spool name (e.copy_of path).before (e.copy_of path).after
        (e.copy_of path).copied m h)
  where
    after_spool :
        (r : Result Fault (String × ℕ × String)) (n : Manager)
        → IsWithin n
        → IsWithin (continue r (queue_spooled e c) n).1
    after_spool (ok s) n k = queue_spooled-IsWithin e c s n k
    after_spool (err f) n k = k

pub observe_android_entry-Within :
    (e : Outside) (p : Print) (w : World) → Within w → Within (observe_android_entry e p w).1
unfolding observe_android_entry finish_download
observe_android_entry-Within e p w h = ground (
  arith,
  enqueue_download-IsWithin e.folders e.now e.writable (e.drawn p.path)
      (serial_or_empty w.memory.config.serial) p.path w.memory.config.destination_profile none
      w.memory.config.duplicate_policy w.transfers h,
)

pub observe_pc_entry-Within :
    (e : Outside) (l : LocalFile) (w : World) → Within w → Within (observe_pc_entry e l w).1
unfolding observe_pc_entry finish_upload
observe_pc_entry-Within e l w h =
    ground (arith, queue_upload-IsWithin e w.memory.config l.path l.name w.transfers h)
