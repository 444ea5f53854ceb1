-- ===== src/Scrcpy/Manager.antt =====
-- `SessionManager` of session.py. Each definition is what runs between two awaits, or a whole
-- method where nothing else runs in between.
use droid_web_display.Common.{
  ℕ, ◌-◌, String, Bool, false, not, ◌&&◌, Option, none, some, List, [], ◌∷◌, leb, ltb, ◌==◌, str_eq,
  if◌then◌else◌, is_some, length, keep, take, Dict, lookup, insert, erase, return, raise, lift,
  writes, require, ◌>>=◌, ◌>>◌, Result, ok, err,
}
use droid_web_display.Common.Table.{find, put, update, discard}
use droid_web_display.Common.Sort.{sort}
use droid_web_display.Scrcpy.Options.{SessionOptions, VirtualDisplayOptions, Invalid, validate}
use droid_web_display.Scrcpy.Session.{
  AndroidDevice, ready, starting, creating_display, running, failed, is_active, is_terminal,
  message, ScrcpySession, is_virtual, Manager, Failure, device_not_found, device_not_ready,
  multiple_devices, session_conflict, session_error, invalid_options, Action, Draws,
}

abbrev pub id_of : ScrcpySession → String
id_of s = s.session_id

abbrev pub session_at : String → Manager → Option ScrcpySession
session_at id m = find id_of id m.sessions

-- An assignment to the attributes of the session with that id.
abbrev pub edit : String → (ScrcpySession → ScrcpySession) → Action (Unit {0})
edit id f = writes (λ m. record m { sessions = update id_of id f m.sessions })

unfoldable pub find_device : String → List AndroidDevice → Option AndroidDevice
find_device serial [] = none
find_device serial (d ∷ ds) = if str_eq d.serial serial then some d else find_device serial ds

abbrev pub select_named : Option AndroidDevice → Result Failure AndroidDevice
select_named none = err device_not_found
select_named (some d) = if ready d then ok d else err device_not_ready

abbrev pub select_only : List AndroidDevice → Result Failure AndroidDevice
select_only [] = err device_not_ready
select_only (d ∷ []) = ok d
select_only (d ∷ _ ∷ _) = err multiple_devices

-- `none`, or an empty text: no serial is asked for.
unfoldable pub select_device : Option String → List AndroidDevice → Result Failure AndroidDevice
select_device none devices = select_only (keep ready devices)
select_device (some serial) devices =
    if str_eq serial ""
    then select_only (keep ready devices)
    else select_named (find_device serial devices)

-- The artifact that is kept, or the loader's, which is kept from then on.
abbrev pub load_artifact : Option (Result Failure String) → Option String → Action String
load_artifact loader (some path) = return path
load_artifact none none = raise session_error
load_artifact (some loaded) none = do
  path ← lift loaded
  writes (λ m. record m { artifact = some path })
  return path

unfoldable pub resolve_artifact : Option (Result Failure String) → Action String
resolve_artifact loader m = load_artifact loader m.artifact m

abbrev pub checked : Result Invalid (Unit {0}) → Result Failure (Unit {0})
checked (ok u) = ok tt
checked (err i) = err (invalid_options i)

abbrev pub sdk_of : AndroidDevice → ℕ
sdk_of d = elim d.sdk [ none ↦ 0 | some n ↦ n ]

-- Whether the session that the index names for a serial is in an active state.
abbrev pub is_held : Option ScrcpySession → Bool
is_held none = false
is_held (some s) = is_active s.state

abbrev pub held_by : Option String → Manager → Bool
held_by none m = false
held_by (some id) m = if str_eq id "" then false else is_held (session_at id m)

abbrev pub start_app_of : Option VirtualDisplayOptions → Option String
start_app_of none = none
start_app_of (some v) = if str_eq v.start_app "" then none else some v.start_app

abbrev pub shows_virtual : SessionOptions → Bool
shows_virtual o = is_virtual o && is_some o.virtual_display

abbrev pub new_session : ℕ → Draws → String → SessionOptions → ScrcpySession
new_session now d serial o = record {
  session_id = d.session_id;
  serial = serial;
  scid = d.scid;
  local_port = d.local_port;
  options = o;
  state = if shows_virtual o then creating_display else starting;
  channels = [];
  created_at = now;
  started_at = none;
  stopped_at = none;
  stop_reason = none;
  error = none;
  display_ready = false;
  display_id = none;
  actual_width = none;
  actual_height = none;
  actual_dpi = none;
  application_launch_result =
      if shows_virtual o && is_some (start_app_of o.virtual_display)
      then "pending-control-message"
      else "not-requested";
  application = if shows_virtual o then start_app_of o.virtual_display else none;
  resize_count = 0;
  last_requested_width = none;
  last_requested_height = none;
  cleanup_result = "not-started";
}

-- The block of `start_session` under the manager's lock.
unfoldable pub register : ℕ → Draws → String → SessionOptions → Action (Unit {0})
register now d serial o m =
    if held_by (lookup serial m.serial_index) m then (err session_conflict, m) else (
      ok tt,
      record m {
        sessions = put id_of (new_session now d serial o) m.sessions;
        serial_index = insert serial d.session_id m.serial_index;
      },
    )

-- `start_session` up to its first await on the session's resources: the new session's serial.
unfoldable pub begin_start :
    ℕ
    → Draws
    → Option String
    → List AndroidDevice
    → Option (Result Failure String)
    → SessionOptions
    → Action String
begin_start now d serial devices loader o = do
  selected ← lift (select_device serial devices)
  resolve_artifact loader
  lift (checked (validate o))
  require (not (is_virtual o && ltb (sdk_of selected) 29)) session_error
  register now d selected.serial o
  return selected.serial

-- The end of `start_session` where every channel has connected.
unfoldable pub start_succeeded : ℕ → String → Action (Unit {0})
start_succeeded now id = edit id (λ s. record s { state = running; started_at = some now })

-- What `_cleanup_session_resources` leaves of a session.
abbrev pub cleaned : ScrcpySession → ScrcpySession
cleaned s = record s {
  channels = [];
  cleanup_result = if is_virtual s.options then "server-released-display" else s.cleanup_result;
}

-- A time of zero counts as no time.
abbrev pub or_time : Option ℕ → ℕ → ℕ
or_time none d = d
or_time (some t) d = if t == 0 then d else t

abbrev pub is_finished : ScrcpySession → Bool
is_finished s = is_terminal s.state

abbrev pub ended_at : ScrcpySession → ℕ
ended_at s = or_time s.stopped_at s.created_at

abbrev pub max_retained : ℕ
max_retained = 20

unfoldable pub discard_all : List ScrcpySession → List ScrcpySession → List ScrcpySession
discard_all [] xs = xs
discard_all (s ∷ ss) xs = discard_all ss (discard id_of (id_of s) xs)

unfoldable pub prune : List ScrcpySession → List ScrcpySession
prune xs =
    let terminated = keep is_finished xs in
    let excess = length terminated - max_retained in
    discard_all (take excess (sort (λ a b. leb (ended_at a) (ended_at b)) terminated)) xs

-- `serial_index.pop(serial)` where it names this session.
abbrev pub release : String → String → Dict String → Dict String
release serial id index = elim (lookup serial index) [
  | none ↦ index
  | some holder ↦ if str_eq holder id then erase serial index else index
]

abbrev pub stamp : ℕ → ScrcpySession → ScrcpySession
stamp now s = record s { stopped_at = some (or_time s.stopped_at now) }

unfoldable pub retire : ℕ → String → String → Action (Unit {0})
retire now id serial = writes (λ m. record m {
  sessions = prune (update id_of id (stamp now) m.sessions);
  serial_index = release serial id m.serial_index;
})

-- The `except` of `start_session`, before the session's resources are released.
unfoldable pub start_failed : String → String → Action (Unit {0})
start_failed id error = edit id (λ s. record s {
  state = failed;
  error = some (message error);
  stop_reason = some "start_failed";
})
