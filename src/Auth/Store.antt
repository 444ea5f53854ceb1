-- ===== src/Auth/Store.antt =====
-- The private methods of `AuthService` that touch the store: audit trail, persistence, expiry of
-- sessions, and the digests of PINs and tokens.
use droid_web_display.Common.{
  ℕ, ◌+◌, String, Bool, true, false, not, ◌&&◌, Option, none, some, List, [], ◌∷◌, ◌++◌, map, leb,
  ◌==◌, str_eq, if◌then◌else◌, is_some, take_last, keep, any, Dict, length,
}
use droid_web_display.Common.{return, raise, lift, writes, ◌>>=◌, ◌>>◌, ok, err, Result, ltb, ◌||◌}
use droid_web_display.Common.Text.{codes, lower, contains, str_take}
use droid_web_display.Auth.Types.{
  AuthError, value_error, overflow_error, plain, os_error, micros, audit_limit, PinRecord, Session,
  SessionGrant, Detail, text, Event, Auth, Env, Request, Draws, Crypto,
}
use droid_web_display.Auth.Rules.{resolve_duration, session_label, public_session}

-- The keys that `_audit` lets through.
unfoldable pub is_loggable : String × Detail → Bool
is_loggable (key, value) =
    not (contains (codes "pin") (lower key)) && not (contains (codes "token") (lower key))

unfoldable pub add_event : ℕ → String → Dict Detail → List Event → List Event
add_event now event details audit =
    take_last audit_limit (
      audit ++ (record { timestamp = now; event = event; details = keep is_loggable details } ∷ []))

unfoldable pub audit : Env → String → Dict Detail → Auth (Unit {0})
audit e event details s =
    writes
      (λ t. record t { state = record t.state { audit = add_event e.now event details t.audit } }) s

-- The file is replaced as a whole, or not at all.
unfoldable pub persist : Env → Auth (Unit {0})
persist e s =
    if e.writable
    then writes (λ t. record t { disk = some t.state }) s
    else raise (plain os_error) s

unfoldable pub has_passed : ℕ → Option ℕ → Bool
has_passed now none = false
has_passed now (some t) = leb t now

unfoldable pub is_due : ℕ → Session → Bool
is_due now item = not (is_some item.revoked_at) && has_passed now item.expires_at

abbrev pub revoked : ℕ → String → Session → Session
revoked now reason item = record item { revoked_at = some now; revocation_reason = some reason }

unfoldable pub expire : ℕ → Session → Session
expire now item = if is_due now item then revoked now "expired" item else item

unfoldable pub log_expired : ℕ → List Session → List Event → List Event
log_expired now [] audit = audit
log_expired now (item ∷ items) audit = log_expired now items (
    if is_due now item
    then add_event now "session-expired" (("sessionId", text item.session_id) ∷ []) audit
    else audit)

-- The sessions whose time has come are revoked. Returns whether there were any.
unfoldable pub sweep : Env → Auth Bool
sweep e s = (
  ok (any (is_due e.now) s.sessions),
  record s {
    state = record s.state {
      sessions = map (expire e.now) s.sessions;
      audit = log_expired e.now s.sessions s.audit;
    };
  },
)

unfoldable pub cleanup_expired : Env → Bool → Auth Bool
cleanup_expired e persists = do
  changed ← sweep e
  if changed && persists then (do persist e; return changed) else return changed

unfoldable pub find_session : String → List Session → Option Session
find_session id [] = none
find_session id (item ∷ items) =
    if str_eq item.session_id id then some item else find_session id items

-- An assignment to the first session of that id.
unfoldable pub update_session : String → (Session → Session) → List Session → List Session
update_session id f [] = []
update_session id f (item ∷ items) =
    if str_eq item.session_id id then f item ∷ items else item ∷ update_session id f items

-- An assignment to the service's list of sessions.
abbrev pub set_sessions : (List Session → List Session) → Auth (Unit {0})
set_sessions f = writes (λ s. record s { state = record s.state { sessions = f s.sessions } })

abbrev pub pbkdf2_iterations : ℕ
pbkdf2_iterations = 600000

-- `None if seconds is None else now + seconds`
abbrev pub deadline : ℕ → Option ℕ → Option ℕ
deadline now none = none
deadline now (some seconds) = some (now + micros seconds)

-- `hmac.compare_digest`
unfoldable pub same_bytes : List ℕ → List ℕ → Bool
same_bytes [] [] = true
same_bytes [] (b ∷ bs) = false
same_bytes (a ∷ xs) [] = false
same_bytes (a ∷ xs) (b ∷ bs) = a == b && same_bytes xs bs

module _ (c : Crypto) where
  unfoldable pub hash_pin : List ℕ → String → PinRecord
  hash_pin salt pin = record {
    algorithm = "pbkdf2-hmac-sha256";
    iterations = some pbkdf2_iterations;
    salt = some (c.b64encode salt);
    hash = some (c.b64encode (c.pbkdf2 pin salt pbkdf2_iterations 32));
  }

  -- `pbkdf2_hmac` and `compare_digest`; it takes 1 to 2^31 - 1 rounds, and at least a byte to make.
  abbrev compared : String → List ℕ → List ℕ → ℕ → Result AuthError Bool
  compared pin salt expected rounds =
      if ltb 2147483647 rounds
      then err (plain overflow_error)
      else if rounds == 0 || length expected == 0
      then err (plain value_error)
      else ok (same_bytes (c.pbkdf2 pin salt rounds (length expected)) expected)

  abbrev check_digest :
      String → Option (List ℕ) → Option (List ℕ) → Option ℕ → Result AuthError Bool
  check_digest pin (some salt) (some expected) (some rounds) = compared pin salt expected rounds
  check_digest pin _ _ _ = ok false

  abbrev decoded : Option String → Option (List ℕ)
  decoded none = none
  decoded (some s) = c.b64decode s

  unfoldable pub verify_pin : Option PinRecord → String → Result AuthError Bool
  verify_pin none pin = ok false
  verify_pin (some r) pin = check_digest pin (decoded r.salt) (decoded r.hash) r.iterations

  abbrev pub new_session : Env → Draws → Request → Option ℕ → Session
  new_session e d r seconds = record {
    session_id = d.session_id;
    token_hash = c.token_digest d.token;
    csrf_token = d.csrf_token;
    created_at = e.now;
    last_seen_at = e.now;
    expires_at = deadline e.now seconds;
    duration = r.duration;
    custom_seconds = if str_eq r.duration "custom" then r.custom_seconds else none;
    label = session_label r.label r.user_agent;
    user_agent = str_take 240 r.user_agent;
    client_ip = r.client_ip;
    access_mode = r.access_mode;
    revoked_at = none;
    revocation_reason = none;
  }

  unfoldable pub create_session : Env → Draws → Request → Auth SessionGrant
  create_session e d r = do
    (seconds, cookie_max_age) ← lift (resolve_duration r.duration r.custom_seconds)
    let item = new_session e d r seconds
    set_sessions (λ items. items ++ (item ∷ []))
    audit e "session-created"
        (("sessionId", text d.session_id) ∷ ("duration", text r.duration) ∷ [])
    return (record {
      token = d.token;
      csrf_token = d.csrf_token;
      session = public_session item;
      cookie_max_age = cookie_max_age;
    })
