-- ===== src/Auth/Types.antt =====
-- The data of droid_web_display/auth.py: the store's content, the service's state, and errors.
use droid_web_display.Common.{ℕ, ◌*◌, String, Option, none, some, List, [], Dict}
use droid_web_display.Common.{Method, Bool, ◌≡◌, length}

-- The `code` of an `AuthError`, or the failure of a write to disk or of `pbkdf2_hmac`.
pub data Code : Type 0 where
  auth_error pin_validation duration_validation already_configured not_configured : Code
  rate_limited invalid_pin auth_store_corrupt os_error value_error overflow_error : Code

pub record AuthError : Type 0 where
  pub code : Code
  pub retry_after : Option ℕ

abbrev pub plain : Code → AuthError
plain c = record { code = c; retry_after = none }

-- Times are whole microseconds.
abbrev pub micros : ℕ → ℕ
micros seconds = 1000000 * seconds

abbrev pub audit_limit : ℕ
audit_limit = 500

abbrev pub custom_min_seconds : ℕ
custom_min_seconds = 5 * 60

abbrev pub custom_max_seconds : ℕ
custom_max_seconds = 10 * 365 * 24 * 60 * 60

-- `none` where the record lacks the key, or where `int` refuses its value. Negative iterations, which
-- PBKDF2 refuses as it does none, are 0.
pub record PinRecord : Type 0 where
  pub algorithm : String
  pub iterations : Option ℕ
  pub salt : Option String
  pub hash : Option String

pub record Session : Type 0 where
  pub session_id : String
  pub token_hash : String
  pub csrf_token : String
  pub created_at : ℕ
  pub last_seen_at : ℕ
  pub expires_at : Option ℕ
  pub duration : String
  pub custom_seconds : Option ℕ
  pub label : String
  pub user_agent : String
  pub client_ip : Option String
  pub access_mode : String
  pub revoked_at : Option ℕ
  pub revocation_reason : Option String

-- What a client sees of a session.
pub record PublicSession : Type 0 where
  pub session_id : String
  pub created_at : ℕ
  pub last_seen_at : ℕ
  pub expires_at : Option ℕ
  pub duration : String
  pub custom_seconds : Option ℕ
  pub label : String
  pub user_agent : String
  pub client_ip : Option String
  pub access_mode : String
  pub revoked_at : Option ℕ
  pub revocation_reason : Option String

pub record SessionGrant : Type 0 where
  pub token : String
  pub csrf_token : String
  pub session : PublicSession
  pub cookie_max_age : Option ℕ

-- A value among the details of an audit event.
pub data Detail : Type 0 where
  text : String → Detail
  number : ℕ → Detail
  null : Detail

abbrev pub optional : Option String → Detail
optional none = null
optional (some s) = text s

pub record Event : Type 0 where
  pub timestamp : ℕ
  pub event : String
  pub details : Dict Detail

pub record State : Type 0 where
  pub pin : Option PinRecord
  pub sessions : List Session
  pub audit : List Event

abbrev pub empty_state : State
empty_state = record { pin = none; sessions = []; audit = [] }

pub record AttemptState : Type 0 where
  pub failures : ℕ
  pub first_failure_at : ℕ
  pub locked_until : ℕ

abbrev pub fresh_attempts : AttemptState
fresh_attempts = record { failures = 0; first_failure_at = 0; locked_until = 0 }

-- `disk` is the content of the store's file.
pub record Service : Type 0 where
  pub state : State
  pub open state use *
  pub attempts : Dict AttemptState
  pub disk : Option State

abbrev pub Auth : Type 0 → Type 0
Auth A = Method AuthError Service A

-- What surrounds one call: the clock's reading, and whether a write to disk goes through.
pub record Env : Type 0 where
  pub now : ℕ
  pub writable : Bool

-- The options of a new session, as the request names them.
pub record Request : Type 0 where
  pub duration : String
  pub custom_seconds : Option ℕ
  pub user_agent : String
  pub label : Option String
  pub client_ip : Option String
  pub access_mode : String

-- The random values that one call draws from `secrets`.
pub record Draws : Type 0 where
  pub salt : List ℕ
  pub token : String
  pub csrf_token : String
  pub session_id : String

-- hashlib and base64. Bytes are lists of numbers.
pub record Crypto : Type 0 where
  pub token_digest : String → String
  pub pbkdf2 : String → List ℕ → ℕ → ℕ → List ℕ
  pub b64encode : List ℕ → String
  pub b64decode : String → Option (List ℕ)

-- base64 is undone by its inverse, and PBKDF2 returns as many bytes as it is asked for.
pub record IsLawful (c : Crypto) : Type 0 where
  pub decode-encode : (b : List ℕ) → c.b64decode (c.b64encode b) ≡ some b
  pub length-pbkdf2 :
      (pin : String) (salt : List ℕ) (rounds n : ℕ) → length (c.pbkdf2 pin salt rounds n) ≡ n
