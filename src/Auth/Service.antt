-- ===== src/Auth/Service.antt =====
-- The public methods of `AuthService`. Each one is one call under the service's lock.
use droid_web_display.Common.{
  ℕ, ◌-◌, min, max, String, Bool, true, false, not, ◌&&◌, Option, none, some, List, [], ◌∷◌, map,
  leb, str_eq, if◌then◌else◌, is_some, take_last, count, Dict, return, raise, lift, reads, writes,
  require, ◌>>=◌, ◌>>◌, ok, err,
}
use mathlib.Core.List.{reverse}
use droid_web_display.Common.Sort.{sort}
use droid_web_display.Auth.Types.{
  Detail, already_configured, not_configured, invalid_pin, plain, micros, audit_limit, PinRecord,
  Session, PublicSession, SessionGrant, text, number, optional, Event, State, empty_state, Service,
  Auth, Env, Request, Draws, Crypto,
}
use droid_web_display.Auth.Rules.{validate_pin, public_session}
use droid_web_display.Auth.Store.{
  audit, persist, has_passed, revoked, cleanup_expired, find_session, update_session, set_sessions,
  hash_pin, create_session,
}
use droid_web_display.Auth.Lockout.{
  check_pin, pop_attempts, check_lockout, record_failure, verify_pin_guarded,
}

-- `except Exception: self._state = snapshot; raise`
abbrev pub or_restore : State → {A : Type 0} → Auth A → Auth A
or_restore snapshot m s =
    let (r, t) = m s in elim r [ ok a ↦ (ok a, t) | err f ↦ (err f, record t { state = snapshot }) ]

abbrev pub configured : Service → Bool
configured s = is_some s.pin

abbrev pub set_pin : PinRecord → Auth (Unit {0})
set_pin p = writes (λ s. record s { state = record s.state { pin = some p } })

-- Every session that is not revoked yet is revoked.
unfoldable pub revoke_live : ℕ → String → Session → Session
revoke_live now reason item = if is_some item.revoked_at then item else revoked now reason item

abbrev pub is_live : Session → Bool
is_live item = not (is_some item.revoked_at)

module _ (c : Crypto) where
  unfoldable pub setup : Env → Draws → String → Request → Auth SessionGrant
  setup e d pin r = do
    known ← reads configured
    if known then raise (plain already_configured) else do
      pin' ← lift (validate_pin pin)
      snapshot ← reads (λ s. s.state)
      or_restore snapshot (do
        set_pin (hash_pin c d.salt pin')
        audit e "pin-configured" []
        grant ← create_session c e d r
        persist e
        return grant)

  -- What `login` does once the PIN has been checked.
  abbrev pub admit : Env → Draws → Request → String → Bool → Auth SessionGrant
  admit e d r key false = do
    retry_after ← record_failure e key
    audit e "login-failed" (("result", text "rejected") ∷ [])
    raise (record { code = invalid_pin; retry_after = retry_after })
  admit e d r key true = do
    pop_attempts key
    grant ← create_session c e d r
    audit e "login-success" (("sessionId", text grant.session.session_id) ∷ [])
    persist e
    return grant

  unfoldable pub login : Env → Draws → String → Request → String → Auth SessionGrant
  login e d pin r key = do
    known ← reads configured
    require known (plain not_configured)
    check_lockout e key
    valid ← check_pin c pin
    admit e d r key valid

  abbrev pub has_digest : String → Session → Bool
  has_digest digest item = str_eq item.token_hash digest

  unfoldable pub find_token : String → List Session → Option Session
  find_token digest [] = none
  find_token digest (item ∷ items) =
      if has_digest digest item then some item else find_token digest items

  unfoldable pub touch_token : String → ℕ → List Session → List Session
  touch_token digest now [] = []
  touch_token digest now (item ∷ items) =
      if has_digest digest item
      then record item { last_seen_at = now } ∷ items
      else item ∷ touch_token digest now items

  abbrev pub persist_if : Env → Bool → Auth (Unit {0})
  persist_if e true = persist e
  persist_if e false = return tt

  abbrev pub needs_touch : ℕ → Bool → Session → Bool
  needs_touch now touch item = touch && leb (micros 60) (now - item.last_seen_at)

  -- The body of the loop of `authenticate` at the session with the token's digest.
  abbrev pub greet : Env → Bool → Bool → String → Option Session → Auth (Option PublicSession)
  greet e touch changed digest none = do persist_if e changed; return none
  greet e touch changed digest (some item) =
      if is_some item.revoked_at
      then return none
      else if has_passed e.now item.expires_at
      then return none
      else if needs_touch e.now touch item
      then (do
        set_sessions (touch_token digest e.now)
        persist e
        return (some (public_session (record item { last_seen_at = e.now }))))
      else (do persist_if e changed; return (some (public_session item)))

  unfoldable pub authenticate : Env → Option String → Bool → Auth (Option PublicSession)
  authenticate e none touch = return none
  authenticate e (some token) touch = if str_eq token "" then return none else do
    changed ← cleanup_expired e false
    item ← reads (λ s. find_token (c.token_digest token) s.sessions)
    greet e touch changed (c.token_digest token) item

  unfoldable pub revoke_all : Env → String → String → Option String → Auth ℕ
  revoke_all e pin actor key = do
    valid ← verify_pin_guarded c e pin key
    if valid
        then (do
          live ← reads (λ s. count is_live s.sessions)
          set_sessions (map (revoke_live e.now "global"))
          audit e "all-sessions-revoked"
              (("count", number live) ∷ ("actorSessionId", text actor) ∷ [])
          persist e
          return live)
        else (do
          audit e "global-revocation-rejected" (("actorSessionId", text actor) ∷ [])
          raise (plain invalid_pin))

  unfoldable pub change_pin :
      Env → Draws → String → String → String → Option String → Auth (Unit {0})
  change_pin e d current_pin new_pin actor key = do
    valid ← verify_pin_guarded c e current_pin key
    if valid
        then (do
          new_pin' ← lift (validate_pin new_pin)
          set_pin (hash_pin c d.salt new_pin')
          set_sessions (map (revoke_live e.now "pin-changed"))
          audit e "pin-changed" (("actorSessionId", text actor) ∷ [])
          persist e)
        else (do
          audit e "pin-change-rejected" (("actorSessionId", text actor) ∷ [])
          raise (plain invalid_pin))

-- The methods that need no digest.
abbrev pub drop_session : Env → String → Option Session → Auth (Unit {0})
drop_session e id none = return tt
drop_session e id (some item) = do
  set_sessions (update_session id (revoked e.now "logout"))
  audit e "logout" (("sessionId", text id) ∷ [])
  persist e

unfoldable pub logout : Env → String → Auth (Unit {0})
logout e id = do item ← reads (λ s. find_session id s.sessions); drop_session e id item

abbrev pub revoke_found : Env → String → String → Option Session → Auth Bool
revoke_found e id actor none = return false
revoke_found e id actor (some item) = if is_some item.revoked_at then return false else do
  set_sessions (update_session id (revoked e.now "individual"))
  audit e "session-revoked" (("sessionId", text id) ∷ ("actorSessionId", text actor) ∷ [])
  persist e
  return true

unfoldable pub revoke : Env → String → String → Auth Bool
revoke e id actor = do item ← reads (λ s. find_session id s.sessions); revoke_found e id actor item

unfoldable pub revoke_all_for_reason : Env → String → Option String → Auth ℕ
revoke_all_for_reason e reason actor = do
  live ← reads (λ s. count is_live s.sessions)
  set_sessions (map (revoke_live e.now reason))
  audit e "all-sessions-revoked"
      (("count", number live) ∷ ("reason", text reason) ∷ ("actorSessionId", optional actor) ∷ [])
  persist e
  return live

unfoldable pub csrf_token : String → Service → Option String
csrf_token id s = elim (find_session id s.sessions) [
  | none ↦ none
  | some item ↦ some item.csrf_token
]

unfoldable pub csrf_valid : String → Option String → Service → Bool
csrf_valid id none s = false
csrf_valid id (some token) s =
    not (str_eq token "")
    && elim (find_session id s.sessions) [ none ↦ false | some item ↦ str_eq item.csrf_token token ]

-- The newest events first.
unfoldable pub audit_events : ℕ → Service → List Event
audit_events limit s = reverse (take_last (max 1 (min limit audit_limit)) s.audit)

-- The file is removed where there is one.
unfoldable pub reset : Auth (Unit {0})
reset = writes (λ s. record s { state = empty_state; disk = none })

-- Each session that is left, with whether it is the caller's own, the newest first.
unfoldable pub list_sessions : Env → String → Auth (List (PublicSession × Bool))
list_sessions e current = do
  cleanup_expired e true
  reads (λ s.
      sort (λ (a, _) (b, _). leb b.created_at a.created_at)
        (map (λ item. (public_session item, str_eq item.session_id current)) s.sessions))

unfoldable pub audit_event : Env → String → Dict Detail → Auth (Unit {0})
audit_event e event details = do audit e event details; persist e
