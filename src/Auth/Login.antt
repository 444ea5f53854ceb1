-- ===== src/Auth/Login.antt =====
-- The session that a login grants: its token opens it until its time has come.
use droid_web_display.Common.{
  ℕ, String, ◌≡◌, refl, Option, none, some, true, false, arith, ok, err, [], ◌∷◌, ◌++◌, str_eq,
  Result, eq_iff, Bool, ◌&&◌, ◌-◌, leb, if◌then◌else◌,
}
use droid_web_display.Auth.Types.{
  micros, AuthError, Session, PublicSession, SessionGrant, Service, Env, Request, Draws, Crypto,
}
use droid_web_display.Auth.Rules.{resolve_duration, public_session}
use droid_web_display.Auth.Store.{
  audit, persist, has_passed, is_due, expire, sweep, cleanup_expired, create_session, new_session,
  verify_pin,
}
use droid_web_display.Auth.Lockout.{check_lockout}
use droid_web_display.Auth.Service.{find_token, login, authenticate}
use droid_web_display.Auth.Tokens.{find_token-append, find_token-expire}

abbrev lifetime : Result AuthError (Option ℕ × Option ℕ) → Option ℕ
lifetime (ok (seconds, age)) = seconds
lifetime (err f) = none

-- The session that a request asks for.
abbrev pub granted : Crypto → Env → Draws → Request → Session
granted c e d r = new_session c e d r (lifetime (resolve_duration r.duration r.custom_seconds))

-- What a call of `authenticate` shows of a session: one that touches it, a minute or more after it
-- was granted, has seen it last at its own time.
abbrev pub shown : Env → Bool → PublicSession → PublicSession
shown later touch p =
    if touch && leb (micros 60) (later.now - p.created_at)
    then record p { last_seen_at = later.now }
    else p

module _ (c : Crypto) (e : Env) (d : Draws) (r : Request) where
  -- What a login that succeeds has done.
  login-adds :
      (pin key : String) (s t : Service) (g : SessionGrant)
      → login c e d pin r key s ≡ (ok g, t)
      → (t.sessions ≡ s.sessions ++ (granted c e d r ∷ []))
        × (g.session ≡ public_session (granted c e d r))
        × (g.token ≡ d.token)
        × (t.disk ≡ some t.state)
        × (verify_pin c s.pin pin ≡ ok true)
  unfolding login audit persist create_session check_lockout
  login-adds pin key s t g h = ground arith

  -- The token of a grant opens the granted session at any call before the session's time has come,
  -- whether or not it touches the session, provided that the token is not empty, that no session
  -- had its digest before, and that the call can write to disk. A call that touches it a minute or
  -- more after the grant has it seen last at its own time.
  pub authenticate-login :
      (pin key : String) (s t : Service) (g : SessionGrant) (later : Env) (touch : Bool)
      → login c e d pin r key s ≡ (ok g, t)
      → str_eq d.token "" ≡ false
      → find_token c (c.token_digest d.token) s.sessions ≡ none
      → has_passed later.now g.session.expires_at ≡ false
      → later.writable ≡ true
      → (authenticate c later (some g.token) touch t).0 ≡ ok (some (shown later touch g.session))
  unfolding authenticate cleanup_expired sweep persist expire is_due
  authenticate-login pin key s t g later touch h full new early writes =
      let (sessions, same, token, _, _) = login-adds pin key s t g h in
      let digest = c.token_digest d.token in
      let item = granted c e d r in
      let swept = find_token-expire c digest later.now t.sessions in
      let found : find_token c digest t.sessions ≡ some item =
        rw sessions
          (find_token-append c digest s.sessions item new ((eq_iff digest digest).1 refl)) in
      ground (arith, swept, found, token, same)
