-- ===== src/Monitor/Rounds.antt =====
-- Whole scans of the monitor over the transfer queue, and their failures.
use droid_web_display.Common.{
  ◌++◌, ◌⊎◌, Bool, false, ◌&&◌, ◌≡◌, List, [], ◌∷◌, some, ok, err, arith,
}
use droid_web_display.Transfers.Types.{Fault, message}
use droid_web_display.Monitor.Config.{is_active, has_serial}
use droid_web_display.Monitor.Types.{Notice, error, kept, World, Outside}
use droid_web_display.Monitor.Service.{sweep, scan_once, begin_scan}
use droid_web_display.Monitor.Capacity.{Within}
use droid_web_display.Monitor.Careful.{sweep-IsCareful, guarded-IsCareful}

-- A scan, forced or not, whatever it meets and whether it raises, leaves the transfer queue within
-- its limit.
pub scan_once-Within :
    (e : Outside) (force : Bool) (w : World) → Within w → Within (scan_once e force w).1
unfolding scan_once
scan_once-Within e force w h =
    let v = record w { memory = begin_scan e w.memory } in
    ground (
      arith,
      guarded-IsCareful e force (sweep e force w.memory.config v).0
          (sweep e force w.memory.config v).1 (sweep-IsCareful e force w.memory.config v h),
    )

-- The monitor stands on the error `f`, in its phase, its last error and its newest notification, and
-- the state file holds it so.
abbrev pub IsNoted : Outside → Fault → World → Type 0
IsNoted e f w =
    (w.memory.phase ≡ error)
    × (w.memory.last_error ≡ some (message f))
    × ((old : List Notice) × (w.memory.notifications
          ≡ old ++ (record { timestamp = e.now; event = "scan-failed"; subject = message f }) ∷ []))
    × (w.disk ≡ kept w.memory)

-- What a scan that is not forced leaves: nothing was to be done, the sweep went through, or what the
-- sweep raised is noted.
abbrev pub IsScanned : Outside → World → World → Type 0
IsScanned e w v =
    let c = w.memory.config in
    let swept = sweep e false c (record w { memory = begin_scan e w.memory }) in
    (((is_active c && has_serial c.serial) ≡ false) × (v ≡ w))
    ⊎ ((swept.0 ≡ ok tt) × (v ≡ swept.1))
    ⊎ ((f : Fault) × (swept.0 ≡ err f) × IsNoted e f v)
