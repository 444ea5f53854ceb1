-- ===== src/Auth/Trail.antt =====
-- The audit trail stays within its limit under every public method.
use droid_web_display.Common.{
  ℕ, ◌≤◌, String, Bool, Option, arith, List, [], ◌∷◌, ◌++◌, keep, length, length-take_last, Dict,
}
use droid_web_display.Auth.Types.{
  audit_limit, Session, Detail, Event, Service, Env, Request, Draws, Crypto,
}
use droid_web_display.Auth.Store.{
  is_loggable, add_event, audit, persist, log_expired, sweep, cleanup_expired, create_session,
}
use droid_web_display.Auth.Lockout.{check_lockout, record_failure, verify_pin_guarded}
use droid_web_display.Auth.Service.{
  setup, login, authenticate, revoke_all, change_pin, logout, revoke, revoke_all_for_reason, reset,
  list_sessions, audit_event,
}

length-add_event :
    (now : ℕ) (event : String) (details : Dict Detail) (trail : List Event)
    → length (add_event now event details trail) ≤ audit_limit
unfolding add_event
length-add_event now event details trail =
    length-take_last audit_limit (
      trail ++ (record { timestamp = now; event = event; details = keep is_loggable details } ∷ []))

length-log_expired :
    (now : ℕ) (items : List Session) (trail : List Event)
    → length trail ≤ audit_limit
    → length (log_expired now items trail) ≤ audit_limit
unfolding log_expired
length-log_expired now [] trail h = h
length-log_expired now (item ∷ items) trail h =
    length-log_expired now items _ (grind (arith, length-add_event))

abbrev pub IsBounded : Service → Type 0
IsBounded s = length s.audit ≤ audit_limit

ruleset trail = (arith, length-add_event, length-log_expired)

module _ (c : Crypto) (e : Env) (s : Service) (h : IsBounded s) where
  pub setup-IsBounded : (d : Draws) (pin : String) (r : Request) → IsBounded (setup c e d pin r s).1
  unfolding setup audit persist create_session
  setup-IsBounded d pin r = grind trail

  pub login-IsBounded :
      (d : Draws) (pin key : String) (r : Request) → IsBounded (login c e d pin r key s).1
  unfolding login audit persist create_session check_lockout record_failure
  login-IsBounded d pin key r = grind trail

  pub authenticate-IsBounded :
      (token : Option String) (touch : Bool) → IsBounded (authenticate c e token touch s).1
  unfolding authenticate persist cleanup_expired sweep
  authenticate-IsBounded token touch = grind trail

  pub revoke_all-IsBounded :
      (pin actor : String) (key : Option String) → IsBounded (revoke_all c e pin actor key s).1
  unfolding revoke_all audit persist verify_pin_guarded check_lockout record_failure
  revoke_all-IsBounded pin actor key = grind trail

  pub verify_pin_guarded-IsBounded :
      (pin : String) (key : Option String) → IsBounded (verify_pin_guarded c e pin key s).1
  unfolding verify_pin_guarded check_lockout record_failure
  verify_pin_guarded-IsBounded pin key = grind trail

  pub change_pin-IsBounded :
      (d : Draws) (old new actor : String) (key : Option String)
      → IsBounded (change_pin c e d old new actor key s).1
  unfolding change_pin audit persist verify_pin_guarded check_lockout record_failure
  change_pin-IsBounded d old new actor key = grind trail

module _ (e : Env) (s : Service) (h : IsBounded s) where
  pub logout-IsBounded : (id : String) → IsBounded (logout e id s).1
  unfolding logout audit persist
  logout-IsBounded id = grind trail

  pub revoke-IsBounded : (id actor : String) → IsBounded (revoke e id actor s).1
  unfolding revoke audit persist
  revoke-IsBounded id actor = grind trail

  pub revoke_all_for_reason-IsBounded :
      (reason : String) (actor : Option String)
      → IsBounded (revoke_all_for_reason e reason actor s).1
  unfolding revoke_all_for_reason audit persist
  revoke_all_for_reason-IsBounded reason actor = grind trail

  pub list_sessions-IsBounded : (current : String) → IsBounded (list_sessions e current s).1
  unfolding list_sessions persist cleanup_expired sweep
  list_sessions-IsBounded current = grind trail

  pub audit_event-IsBounded :
      (event : String) (details : Dict Detail) → IsBounded (audit_event e event details s).1
  unfolding audit_event audit persist
  audit_event-IsBounded event details = grind trail

pub reset-IsBounded : (s : Service) → IsBounded s → IsBounded (reset s).1
unfolding reset
reset-IsBounded s h = omega arith
