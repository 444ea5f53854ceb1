-- ===== src/Auth/Calls.antt =====
-- Every history of public calls on one `AuthService`.
use droid_web_display.Common.{String, Bool, Option, Dict, List, [], ◌∷◌, length, ◌≤◌}
use droid_web_display.Auth.Types.{audit_limit, Detail, Service, Env, Request, Draws, Crypto}
use droid_web_display.Auth.Service.{
  setup, login, authenticate, revoke_all, change_pin, logout, revoke, revoke_all_for_reason, reset,
  list_sessions, audit_event,
}
use droid_web_display.Auth.Lockout.{verify_pin_guarded}
use droid_web_display.Auth.Trail.{
  IsBounded, setup-IsBounded, login-IsBounded, authenticate-IsBounded, revoke_all-IsBounded,
  change_pin-IsBounded, logout-IsBounded, revoke-IsBounded, revoke_all_for_reason-IsBounded,
  reset-IsBounded, list_sessions-IsBounded, audit_event-IsBounded, verify_pin_guarded-IsBounded,
}

-- A public call that changes the service.
pub data Call : Type 0 where
  setup_call : Draws → String → Request → Call
  login_call : Draws → String → Request → String → Call
  authenticate_call : Option String → Bool → Call
  revoke_all_call : String → String → Option String → Call
  change_pin_call : Draws → String → String → String → Option String → Call
  logout_call : String → Call
  revoke_call : String → String → Call
  revoke_for_reason_call : String → Option String → Call
  list_call : String → Call
  event_call : String → Dict Detail → Call
  guarded_pin_call : String → Option String → Call
  reset_call : Call

module _ (c : Crypto) where
  abbrev pub perform : Env → Call → Service → Service
  perform e (setup_call d pin r) s = (setup c e d pin r s).1
  perform e (login_call d pin r key) s = (login c e d pin r key s).1
  perform e (authenticate_call token touch) s = (authenticate c e token touch s).1
  perform e (revoke_all_call pin actor key) s = (revoke_all c e pin actor key s).1
  perform e (change_pin_call d old new actor key) s = (change_pin c e d old new actor key s).1
  perform e (logout_call id) s = (logout e id s).1
  perform e (revoke_call id actor) s = (revoke e id actor s).1
  perform e (revoke_for_reason_call reason actor) s = (revoke_all_for_reason e reason actor s).1
  perform e (list_call current) s = (list_sessions e current s).1
  perform e (event_call event details) s = (audit_event e event details s).1
  perform e (guarded_pin_call pin key) s = (verify_pin_guarded c e pin key s).1
  perform e reset_call s = (reset s).1

  unfoldable pub run : List (Env × Call) → Service → Service
  run [] s = s
  run ((e, call) ∷ calls) s = run calls (perform e call s)

  perform-IsBounded :
      (e : Env) (call : Call) (s : Service) → IsBounded s → IsBounded (perform e call s)
  perform-IsBounded e (setup_call d pin r) s h = setup-IsBounded c e s h d pin r
  perform-IsBounded e (login_call d pin r key) s h = login-IsBounded c e s h d pin key r
  perform-IsBounded e (authenticate_call token touch) s h =
      authenticate-IsBounded c e s h token touch
  perform-IsBounded e (revoke_all_call pin actor key) s h =
      revoke_all-IsBounded c e s h pin actor key
  perform-IsBounded e (change_pin_call d old new actor key) s h =
      change_pin-IsBounded c e s h d old new actor key
  perform-IsBounded e (logout_call id) s h = logout-IsBounded e s h id
  perform-IsBounded e (revoke_call id actor) s h = revoke-IsBounded e s h id actor
  perform-IsBounded e (revoke_for_reason_call reason actor) s h =
      revoke_all_for_reason-IsBounded e s h reason actor
  perform-IsBounded e (list_call current) s h = list_sessions-IsBounded e s h current
  perform-IsBounded e (event_call event details) s h = audit_event-IsBounded e s h event details
  perform-IsBounded e (guarded_pin_call pin key) s h = verify_pin_guarded-IsBounded c e s h pin key
  perform-IsBounded e reset_call s h = reset-IsBounded s h

  -- From an audit trail within the limit of 500 events, no history of public calls, with whatever
  -- clock readings and whether their writes to disk go through or not, makes it longer than that.
  pub run-IsBounded :
      (calls : List (Env × Call)) (s : Service)
      → length s.audit ≤ audit_limit
      → length (run calls s).audit ≤ audit_limit
  unfolding run
  run-IsBounded [] s h = h
  run-IsBounded ((e, call) ∷ calls) s h =
      run-IsBounded calls (perform e call s) (perform-IsBounded e call s h)
