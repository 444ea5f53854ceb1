-- ===== src/Scrcpy/Control.antt =====
-- `SessionManager` of session.py, continued: stopping, watching, resizing and listing.
use droid_web_display.Common.{
  ℕ, ◌+◌, String, Bool, true, false, ◌&&◌, ◌||◌, Option, none, some, List, [], ◌∷◌, leb, str_eq,
  if◌then◌else◌, keep, any, return, raise, require, ◌>>=◌, ◌>>◌,
}
use droid_web_display.Common.Sort.{sort}
use droid_web_display.Common.Integers.{ℤ}
use droid_web_display.Scrcpy.Options.{between, is_flex}
use droid_web_display.Scrcpy.Session.{
  SessionState, running, stopping, stopped, disconnected, is_active, is_ending, server_exit,
  ScrcpySession, is_virtual, Manager, session_not_found, session_error, value_error, Action,
}
use droid_web_display.Scrcpy.Manager.{id_of, session_at, edit, cleaned, retire}

abbrev pub or_missing : Option ScrcpySession → Action ScrcpySession
or_missing none = raise session_not_found
or_missing (some s) = return s

unfoldable pub get_session : String → Action ScrcpySession
get_session id m = or_missing (session_at id m) m

abbrev pub begin_if : String → String → ScrcpySession → Action Bool
begin_if id reason s =
    if is_ending s.state
    then return false
    else do edit id (λ t. record t { state = stopping; stop_reason = some reason }); return true

-- `stop_session` up to the release of the resources: whether it goes on to release them.
unfoldable pub stop_begin : String → String → Action Bool
stop_begin id reason = do s ← get_session id; begin_if id reason s

unfoldable pub final_state : String → SessionState
final_state reason =
    if str_eq reason "device_disconnected" || str_eq reason "server_terminated"
    then disconnected
    else stopped

-- `stop_session` from there on. The stop time is set anew.
unfoldable pub stop_end : ℕ → String → String → String → Action (Unit {0})
stop_end now id serial reason = do
  edit id (λ s. record (cleaned s) { state = final_state reason; stopped_at = some now })
  retire now id serial

abbrev pub finish_if : ℕ → String → String → ScrcpySession → Bool → Action (Unit {0})
finish_if now id reason s true = stop_end now id s.serial reason
finish_if now id reason s false = return tt

-- `stop_session` where nothing else runs while the resources are released.
unfoldable pub stop_session : ℕ → String → String → Action (Unit {0})
stop_session now id reason = do
  s ← get_session id
  goes_on ← stop_begin id reason
  finish_if now id reason s goes_on

-- `_watch_server_process` once the server has exited.
abbrev pub exit_if : ℕ → ℤ → String → Option ScrcpySession → Action (Unit {0})
exit_if now code id none = return tt
exit_if now code id (some s) =
    if is_active s.state
    then (do
      edit id (λ t. record t { error = some (server_exit code) })
      stop_session now id "server_terminated")
    else return tt

unfoldable pub server_exited : ℕ → ℤ → String → Action (Unit {0})
server_exited now code id m = exit_if now code id (session_at id m) m

abbrev pub is_serial_in : List String → ScrcpySession → Bool
is_serial_in serials s = any (λ serial. str_eq serial s.serial) serials

-- The stops of one round of the monitor. An error ends the round.
unfoldable pub stop_lost : ℕ → List String → List ScrcpySession → Action (Unit {0})
stop_lost now serials [] = return tt
stop_lost now serials (s ∷ ss) = do
  if is_serial_in serials s then return tt else stop_session now (id_of s) "device_disconnected"
  stop_lost now serials ss

-- One round of `_monitor_devices`, from the serials of the devices that are ready; what it raises
-- is dropped.
unfoldable pub monitor_round : ℕ → List String → Manager → Manager
monitor_round now serials m = (stop_lost now serials (keep (λ s. is_active s.state) m.sessions) m).1

abbrev pub is_flexible : ScrcpySession → Bool
is_flexible s =
    is_virtual s.options && elim s.options.virtual_display [ none ↦ false | some v ↦ is_flex v ]

abbrev pub is_running : SessionState → Bool
is_running running = true
is_running _ = false

abbrev pub resized : ℕ → ℕ → ScrcpySession → ScrcpySession
resized width height s = record s {
  resize_count = s.resize_count + 1;
  last_requested_width = some width;
  last_requested_height = some height;
}

unfoldable pub record_virtual_resize : String → ℕ → ℕ → Action (Unit {0})
record_virtual_resize id width height = do
  s ← get_session id
  require (is_flexible s) session_error
  require (is_running s.state) session_error
  require (between 640 3840 width && between 480 2160 height) session_error
  edit id (resized width height)

unfoldable pub mark_application_launch : String → String → Action (Unit {0})
mark_application_launch id result = do
  s ← get_session id
  require (str_eq result "sent" || str_eq result "success" || str_eq result "failed") value_error
  edit id (λ t. record t { application_launch_result = result })

-- What a line of the server's log says of the display, and of the application's start.
pub record Lifecycle : Type 0 where
  pub width : ℕ
  pub height : ℕ
  pub dpi : ℕ
  pub display_id : ℕ

abbrev pub note_display : Option Lifecycle → ScrcpySession → ScrcpySession
note_display none s = s
note_display (some l) s = record s {
  display_id = some l.display_id;
  actual_width = some l.width;
  actual_height = some l.height;
  actual_dpi = some l.dpi;
  display_ready = true;
}

abbrev pub note_package : Option String → ScrcpySession → ScrcpySession
note_package none s = s
note_package (some p) s = record s { application = if str_eq p "" then s.application else some p }

abbrev pub note_application : Option (String × Option String) → ScrcpySession → ScrcpySession
note_application none s = s
note_application (some (result, name)) s =
    note_package name (record s { application_launch_result = result })

-- `_handle_server_log_line`, from what the two parsers of virtual_display.py find in the line.
unfoldable pub handle_log_line :
    Option Lifecycle → Option (String × Option String) → ScrcpySession → ScrcpySession
handle_log_line lifecycle app s = note_application app (note_display lifecycle s)

unfoldable pub list_sessions : Manager → List ScrcpySession
list_sessions m = sort (λ a b. leb a.created_at b.created_at) m.sessions
