-- ===== src/Auth/Throttle.antt =====
-- The lockout: what a client that guesses PINs meets.
use droid_web_display.Common.{
  ℕ, ◌+◌, ◌-◌, ◌≤◌, ◌<◌, String, ◌≡◌, some, true, arith, err, lookup, is_some, lt→ltb,
}
use droid_web_display.Auth.Types.{
  AuthError, rate_limited, micros, AttemptState, Service, Env, Request, Draws, Crypto,
}
use droid_web_display.Auth.Lockout.{seconds_left, check_lockout, verify_pin_guarded}
use droid_web_display.Auth.Service.{login}

-- The refusal of a locked client at time `now`.
abbrev pub refusal : ℕ → AttemptState → AuthError
refusal now a = record {
  code = rate_limited;
  retry_after = some (seconds_left (a.locked_until - now));
}

check_lockout_locked :
    (e : Env) (key : String) (s : Service) (a : AttemptState)
    → lookup key s.attempts ≡ some a
    → e.now < a.locked_until
    → check_lockout e key s ≡ (err (refusal e.now a), s)
unfolding check_lockout
check_lockout_locked e key s a known h = rw (known, lt→ltb e.now a.locked_until h)

-- The seconds that a refusal names are at least one, and end less than a millisecond before the lock.
retry_reaches :
    (a now : ℕ)
    → now < a
    → (1 ≤ seconds_left (a - now)) × (a < now + micros (seconds_left (a - now)) + 1000)
retry_reaches a now h = omega arith

module _ (c : Crypto) (e : Env) (pin key : String) (s : Service) (a : AttemptState) where
  -- While a client is locked out, neither `login` nor a guarded PIN check looks at the PIN: both
  -- raise `rate_limited` and change nothing. The retry time is at least a second, and when it has
  -- passed the lock ends within a millisecond.
  pub locked_out :
      (d : Draws) (r : Request)
      → is_some s.pin ≡ true
      → lookup key s.attempts ≡ some a
      → e.now < a.locked_until
      → (login c e d pin r key s ≡ (err (refusal e.now a), s))
        × (verify_pin_guarded c e pin (some key) s ≡ (err (refusal e.now a), s))
        × (1 ≤ seconds_left (a.locked_until - e.now))
        × (a.locked_until < e.now + micros (seconds_left (a.locked_until - e.now)) + 1000)
  unfolding login verify_pin_guarded
  locked_out d r set known h =
      let same = check_lockout_locked e key s a known h in
      let (some_time, enough) = retry_reaches a.locked_until e.now h in
      (rw (set, same), rw same, some_time, enough)
