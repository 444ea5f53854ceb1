-- ===== src/Auth/Lockout.antt =====
-- The lockout of `AuthService`: `_check_lockout`, `_record_failure` and `_verify_pin_guarded`.
use droid_web_display.Common.{
  ℕ, ◌+◌, ◌-◌, ◌*◌, ◌/◌, ◌^◌, min, max, String, Bool, true, false, Option, none, some, ltb, leb,
  ◌==◌, ◌||◌, if◌then◌else◌, lookup, insert, erase, return, raise, writes, ◌>>=◌, ◌>>◌, ok,
}
use droid_web_display.Auth.Types.{
  rate_limited, micros, AttemptState, fresh_attempts, Auth, Env, Crypto,
}
use droid_web_display.Auth.Store.{verify_pin}

-- `int(d + 0.999)` of a time in seconds that is `d` microseconds.
abbrev pub seconds_left : ℕ → ℕ
seconds_left d = max 1 ((d + 999000) / 1000000)

abbrev pub pop_attempts : String → Auth (Unit {0})
pop_attempts key = writes (λ s. record s { attempts = erase key s.attempts })

-- What `_check_lockout` does once it has read the client's attempts.
abbrev pub judge : Env → String → Option AttemptState → Auth (Unit {0})
judge e key none = return tt
judge e key (some a) =
    if ltb e.now a.locked_until
    then raise
        (record { code = rate_limited; retry_after = some (seconds_left (a.locked_until - e.now)) })
    else if ltb (micros 300) (e.now - a.first_failure_at)
    then pop_attempts key
    else return tt

unfoldable pub check_lockout : Env → String → Auth (Unit {0})
check_lockout e key s = judge e key (lookup key s.attempts) s

abbrev pub attempts_of : Option AttemptState → AttemptState
attempts_of none = fresh_attempts
attempts_of (some a) = a

-- A new window opens at the first failure, and where the last one opened over five minutes ago.
unfoldable pub count_failure : ℕ → AttemptState → AttemptState
count_failure now a =
    if a.failures == 0 || ltb (micros 300) (now - a.first_failure_at)
    then record a { failures = 1; first_failure_at = now }
    else record a { failures = a.failures + 1 }

unfoldable pub lock_seconds : ℕ → ℕ
lock_seconds failures = min 300 (30 * 2 ^ min (failures - 5) 3)

unfoldable pub lock : ℕ → AttemptState → AttemptState × Option ℕ
lock now a =
    if leb 5 a.failures
    then (
      record a { locked_until = now + micros (lock_seconds a.failures) },
      some (lock_seconds a.failures),
    )
    else (a, none)

unfoldable pub record_failure : Env → String → Auth (Option ℕ)
record_failure e key s =
    let (a, retry_after) = lock e.now (count_failure e.now (attempts_of (lookup key s.attempts))) in
    (ok retry_after, record s { attempts = insert key a s.attempts })

module _ (c : Crypto) where
  -- `_verify_pin`, which may raise.
  abbrev pub check_pin : String → Auth Bool
  check_pin pin s = (verify_pin c s.pin pin, s)

  abbrev pub answer : Env → String → Bool → Auth Bool
  answer e key true = do pop_attempts key; return true
  answer e key false = do record_failure e key; return false

  -- With a client's key, under the lockout that protects `login`.
  abbrev pub guarded : Env → String → String → Auth Bool
  guarded e pin key = do check_lockout e key; valid ← check_pin pin; answer e key valid

  unfoldable pub verify_pin_guarded : Env → String → Option String → Auth Bool
  verify_pin_guarded e pin none s = check_pin pin s
  verify_pin_guarded e pin (some key) s = guarded e pin key s
