-- ===== src/Auth/Tests.antt =====
-- Runs of the service over `toy`, and the theorems at concrete calls.
use droid_web_display.Common.{
  ℕ, ◌≡◌, refl, String, none, some, true, false, [], ◌∷◌, arith, ok, err, str_eq, any, ◌+◌, ◌*◌,
  lookup, insert, erase, length, ◌≤◌, ◌<◌,
}
use droid_web_display.Common.Text.{
  str_take, lower_code, is_prefix, contains, join_words, squash, chars, of_chars, is_space,
}
use droid_web_display.Auth.Types.{
  Service, Env, Request, Draws, AttemptState, Session, audit_limit, empty_state, os_error, plain,
  pin_validation, SessionGrant,
}
use droid_web_display.Auth.Rules.{
  all_digits, validate_pin, resolve_duration, browser_of, platform_of, label_of_agent,
  session_label,
}
use droid_web_display.Auth.Store.{
  is_loggable, add_event, audit, persist, has_passed, is_due, expire, log_expired, sweep,
  cleanup_expired, find_session, update_session, same_bytes, hash_pin, verify_pin, create_session,
  new_session, revoked,
}
use droid_web_display.Auth.Lockout.{
  check_lockout, count_failure, lock_seconds, lock, record_failure, verify_pin_guarded,
}
use droid_web_display.Auth.Service.{
  revoke_live, setup, login, find_token, touch_token, authenticate, revoke_all, change_pin, logout,
  revoke,
}
use droid_web_display.Auth.Toy.{toy, toy-IsLawful}
use droid_web_display.Auth.Setup.{setup-rollback, setup-verify_pin}
use droid_web_display.Auth.Throttle.{locked_out, refusal}
use droid_web_display.Auth.Guessing.{at_check, at_login, Guess, guess, guess_all}
use droid_web_display.Auth.Tokens.{authenticate_sound}
use droid_web_display.Auth.Revocation.{authenticate-revoke_all, authenticate-change_pin}
use droid_web_display.Auth.Login.{authenticate-login}
use droid_web_display.Auth.Single.{revoke_once}
use droid_web_display.Auth.Expired.{authenticate-expired}
use droid_web_display.Auth.Calls.{run, run-IsBounded, login_call, logout_call, reset_call}

abbrev blank : Service
blank = record { state = empty_state; attempts = []; disk = none }

abbrev at : ℕ → Env
at now = record { now = 1000 * now; writable = true }

abbrev read_only : ℕ → Env
read_only now = record { now = 1000 * now; writable = false }

abbrev hour : Request
hour = record {
  duration = "1-hour";
  custom_seconds = none;
  user_agent = "Mozilla Firefox Linux";
  label = none;
  client_ip = none;
  access_mode = "local";
}

abbrev draw : String → Draws
draw name = record { salt = 1 ∷ 2 ∷ []; token = name; csrf_token = "c"; session_id = name }

-- Naming `started` opens everything that a call computes with.
started : Service
unfolding toy setup login authenticate revoke_all change_pin revoke logout revoke_live find_token
    touch_token check_lockout count_failure lock_seconds lock record_failure verify_pin_guarded
    is_loggable add_event audit persist has_passed is_due expire log_expired sweep cleanup_expired
    find_session update_session same_bytes hash_pin verify_pin create_session all_digits
    validate_pin resolve_duration browser_of platform_of label_of_agent session_label str_take
    lower_code is_prefix contains lookup insert erase run
started = (setup toy (at 1000) (draw "t1") "1234" hour blank).1

cleaned_label : session_label (some "  my   laptop ") "x" ≡ "my laptop"
unfolding started join_words squash chars of_chars is_space
cleaned_label = refl

agent_label : session_label none "Mozilla Firefox Linux" ≡ "Firefox on Linux"
unfolding started
agent_label = refl

-- The PIN is too short, so that nothing is kept.
setup-rollback_example : (setup toy (at 1000) (draw "t1") "123" hour blank).1 ≡ blank
unfolding started
setup-rollback_example =
    setup-rollback toy (at 1000) (draw "t1") "123" hour blank (plain pin_validation) _ refl

-- The write fails, so that the PIN that was set in memory is taken back.
unwritten : setup toy (read_only 1000) (draw "t1") "1234" hour blank ≡ (err (plain os_error), blank)
unfolding started
unwritten = refl

abbrev first_grant : SessionGrant
first_grant = record {
  token = "t1";
  csrf_token = "c";
  session = record {
    session_id = "t1";
    created_at = 1000000;
    last_seen_at = 1000000;
    expires_at = some 3601000000;
    duration = "1-hour";
    custom_seconds = none;
    label = "Firefox on Linux";
    user_agent = "Mozilla Firefox Linux";
    client_ip = none;
    access_mode = "local";
    revoked_at = none;
    revocation_reason = none;
  };
  cookie_max_age = some 3600;
}

setup-verify_pin_example :
    (started.disk ≡ some started.state) × (verify_pin toy started.pin "1234" ≡ ok true)
unfolding started
setup-verify_pin_example =
    setup-verify_pin toy (at 1000) (draw "t1") "1234" hour blank first_grant started toy-IsLawful
      refl

abbrev wrong : ℕ → Guess
wrong now = record { at = at now; pin = "0000"; door = at_check }

abbrev wrong_login : ℕ → Guess
wrong_login now = record (wrong now) { door = at_login (draw "t2") hour }

-- Five wrong PINs, ten seconds apart, two of them at login.
guessed : Service
unfolding started
guessed = guess toy "lan" (wrong 50000) (
    guess_all toy "lan" (wrong_login 20000 ∷ wrong 30000 ∷ wrong_login 40000 ∷ [])
      (guess toy "lan" (wrong 10000) started))

abbrev locked : AttemptState
locked = record { failures = 5; first_failure_at = 10000000; locked_until = 80000000 }

locked_out_example :
    (login toy (at 60000) (draw "t2") "1234" hour "lan" guessed
      ≡ (err (refusal 60000000 locked), guessed))
    × (verify_pin_guarded toy (at 60000) "1234" (some "lan") guessed
        ≡ (err (refusal 60000000 locked), guessed))
    × (1 ≤ 20)
    × (80000000 < 60000000 + 1000000 * 20 + 1000)
unfolding guessed
locked_out_example =
    locked_out toy (at 60000) "1234" "lan" guessed locked (draw "t2") hour refl refl (omega arith)

-- A second later the lock is over.
unlocked : (verify_pin_guarded toy (at 80000) "1234" (some "lan") guessed).0 ≡ ok true
unfolding guessed
unlocked = refl

abbrev entered : Service
entered = (login toy (at 5000) (draw "t2") "1234" hour "lan" started).1

abbrev second_grant : SessionGrant
second_grant = record {
  token = "t2";
  csrf_token = "c";
  session = record {
    session_id = "t2";
    created_at = 5000000;
    last_seen_at = 5000000;
    expires_at = some 3605000000;
    duration = "1-hour";
    custom_seconds = none;
    label = "Firefox on Linux";
    user_agent = "Mozilla Firefox Linux";
    client_ip = none;
    access_mode = "local";
    revoked_at = none;
    revocation_reason = none;
  };
  cookie_max_age = some 3600;
}

authenticate-login_example :
    (authenticate toy (at 3604999) (some "t2") true entered).0
    ≡ ok (some (record second_grant.session { last_seen_at = 3604999000 }))
unfolding started
authenticate-login_example =
    authenticate-login toy (at 5000) (draw "t2") hour "1234" "lan" started entered second_grant
      (at 3604999) true refl refl refl refl refl

abbrev touched : Service
touched = (authenticate toy (at 90000) (some "t2") true entered).1

authenticate_sound_example :
    (item : Session) × (find_token toy "t2" entered.sessions ≡ some item)
    × (item.revoked_at ≡ none)
    × (has_passed 90000000 item.expires_at ≡ false)
    × ("t2" ≡ item.session_id)
unfolding started
authenticate_sound_example =
    authenticate_sound toy (at 90000) "t2" true entered touched
      (record second_grant.session { last_seen_at = 90000000 }) refl

revoked_all : Service
unfolding started
revoked_all = (revoke_all toy (at 6000) "1234" "t2" (some "lan") entered).1

authenticate-revoke_all_example :
    (authenticate toy (at 7000) (some "t2") true revoked_all).0 ≡ ok none
unfolding revoked_all
authenticate-revoke_all_example =
    authenticate-revoke_all toy (at 6000) "1234" "t2" (some "lan") entered revoked_all 2 (at 7000)
      (some "t2") true refl

rekeyed : Service
unfolding started
rekeyed = (change_pin toy (at 6000) (draw "x") "1234" "98765" "t2" (some "lan") entered).1

authenticate-change_pin_example :
    ((authenticate toy (at 7000) (some "t2") true rekeyed).0 ≡ ok none)
    × (verify_pin toy rekeyed.pin "98765" ≡ ok true)
    × (rekeyed.disk ≡ some rekeyed.state)
unfolding rekeyed
authenticate-change_pin_example =
    authenticate-change_pin toy (at 6000) (draw "x") "1234" "98765" "t2" (some "lan") entered
      rekeyed (at 7000) (some "t2") true toy-IsLawful refl

abbrev second_session : Session
second_session = new_session toy (at 5000) (draw "t2") hour (some 3600)

revoke_once_example :
    (item : Session) × (find_session "t2" entered.sessions ≡ some item)
    × (item.revoked_at ≡ none)
    × (find_session "t2" (revoke (at 6000) "t2" "t1" entered).1.sessions
        ≡ some (revoked 6000000 "individual" item))
    × ((j : String)
        → str_eq "t2" j ≡ false
        → find_session j (revoke (at 6000) "t2" "t1" entered).1.sessions
          ≡ find_session j entered.sessions)
    × ((revoke (at 6000) "t2" "t1" entered).1.disk
        ≡ some (revoke (at 6000) "t2" "t1" entered).1.state)
    × ((later : Env)
        → revoke later "t2" "t1" (revoke (at 6000) "t2" "t1" entered).1
          ≡ (ok false, (revoke (at 6000) "t2" "t1" entered).1))
unfolding started
revoke_once_example =
    revoke_once (at 6000) "t2" "t1" entered (revoke (at 6000) "t2" "t1" entered).1 refl

authenticate-expired_example :
    ((authenticate toy (at 3605000) (some "t2") true entered).0 ≡ ok none)
    × (any (is_due 3605000000) (authenticate toy (at 3605000) (some "t2") true entered).1.sessions
        ≡ false)
    × (find_token toy "t2" (authenticate toy (at 3605000) (some "t2") true entered).1.sessions
        ≡ some (expire 3605000000 second_session))
    × ((authenticate toy (at 3605000) (some "t2") true entered).1.disk ≡ entered.disk)
unfolding started
authenticate-expired_example =
    authenticate-expired toy (at 3605000) "t2" true entered second_session refl refl refl

run-IsBounded_example :
    length
      (run toy
        ((at 5000, login_call (draw "t2") "0000" hour "lan")
          ∷ (at 6000, logout_call "t1")
          ∷ (at 7000, reset_call)
          ∷ [])
        started).audit
    ≤ audit_limit
unfolding started
run-IsBounded_example =
    run-IsBounded toy
      ((at 5000, login_call (draw "t2") "0000" hour "lan")
        ∷ (at 6000, logout_call "t1")
        ∷ (at 7000, reset_call)
        ∷ [])
      started (omega arith)
