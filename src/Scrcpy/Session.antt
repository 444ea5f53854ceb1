-- ===== src/Scrcpy/Session.antt =====
-- The data of droid_web_display/scrcpy/session.py, with the devices of models.py.
use droid_web_display.Common.{ℕ, String, Bool, true, false, Option, List, Dict, str_eq, Method}
use droid_web_display.Common.Integers.{ℤ}
use droid_web_display.Scrcpy.Options.{ChannelName, physical, virtual, SessionOptions, Invalid}

pub record AndroidDevice : Type 0 where
  pub serial : String
  pub state : String
  pub manufacturer : Option String
  pub sdk : Option ℕ

abbrev pub ready : AndroidDevice → Bool
ready d = str_eq d.state "device"

pub data SessionState : Type 0 where
  idle probing starting creating_display launching_app connecting_video : SessionState
  connecting_control running resizing stopping stopped disconnected failed : SessionState

-- The states in which a session holds its device.
unfoldable pub is_active : SessionState → Bool
is_active probing = true
is_active starting = true
is_active creating_display = true
is_active launching_app = true
is_active connecting_video = true
is_active connecting_control = true
is_active running = true
is_active resizing = true
is_active _ = false

-- `TERMINAL_SESSION_STATES`
unfoldable pub is_terminal : SessionState → Bool
is_terminal stopped = true
is_terminal disconnected = true
is_terminal failed = true
is_terminal _ = false

-- The states in which `stop_session` has nothing to do.
unfoldable pub is_ending : SessionState → Bool
is_ending stopping = true
is_ending stopped = true
is_ending disconnected = true
is_ending failed = true
is_ending _ = false

-- The text of `session.error`.
pub data ErrorText : Type 0 where
  message : String → ErrorText
  server_exit : ℤ → ErrorText

-- Times are whole milliseconds.
pub record ScrcpySession : Type 0 where
  pub session_id : String
  pub serial : String
  pub scid : ℕ
  pub local_port : ℕ
  pub options : SessionOptions
  pub state : SessionState
  pub channels : List ChannelName
  pub created_at : ℕ
  pub started_at : Option ℕ
  pub stopped_at : Option ℕ
  pub stop_reason : Option String
  pub error : Option ErrorText
  pub display_ready : Bool
  pub display_id : Option ℕ
  pub actual_width : Option ℕ
  pub actual_height : Option ℕ
  pub actual_dpi : Option ℕ
  pub application_launch_result : String
  pub application : Option String
  pub resize_count : ℕ
  pub last_requested_width : Option ℕ
  pub last_requested_height : Option ℕ
  pub cleanup_result : String

abbrev pub is_virtual : SessionOptions → Bool
is_virtual o = elim o.display_mode [ virtual ↦ true | physical ↦ false ]

-- `_sessions` is keyed by the sessions' own ids.
pub record Manager : Type 0 where
  pub sessions : List ScrcpySession
  pub serial_index : Dict String
  pub artifact : Option String

pub data Failure : Type 0 where
  device_not_found device_not_ready multiple_devices session_conflict session_not_found : Failure
  session_error value_error : Failure
  invalid_options : Invalid → Failure

abbrev pub Action : Type 0 → Type 0
Action A = Method Failure Manager A

-- What one call of `start_session` draws: the id, the scid and the reserved port.
pub record Draws : Type 0 where
  pub session_id : String
  pub scid : ℕ
  pub local_port : ℕ
