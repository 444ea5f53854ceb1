-- ===== src/Auth/Revocation.antt =====
-- What ends trust: global revocation and a change of the PIN.
use droid_web_display.Common.{
  ℕ, String, ◌≡◌, Bool, Option, none, some, true, arith, ok, List, [], ◌∷◌, map, is_some, All,
}
use droid_web_display.Auth.Types.{Session, Service, Env, Draws, Crypto, IsLawful}
use droid_web_display.Auth.Rules.{validate_pin}
use droid_web_display.Auth.Store.{audit, persist, verify_pin, hash_pin}
use droid_web_display.Auth.Lockout.{verify_pin_guarded}
use droid_web_display.Auth.Service.{revoke_live, authenticate, revoke_all, change_pin}
use droid_web_display.Auth.Digests.{verify_pin-hash_pin}
use droid_web_display.Auth.Tokens.{AllRevoked, authenticate-AllRevoked}

map-revoke_live :
    (now : ℕ) (reason : String) (items : List Session)
    → All (λ item. is_some item.revoked_at ≡ true) (map (revoke_live now reason) items)
unfolding revoke_live
map-revoke_live now reason [] = tt
map-revoke_live now reason (item ∷ items) = ground (arith, map-revoke_live now reason items)

module _ (c : Crypto) (e : Env) where
  revoke_all-AllRevoked :
      (pin actor : String) (key : Option String) (s t : Service) (n : ℕ)
      → revoke_all c e pin actor key s ≡ (ok n, t)
      → AllRevoked c t
  unfolding revoke_all audit persist
  revoke_all-AllRevoked pin actor key s t n h =
      ground (arith, map-revoke_live e.now "global" (verify_pin_guarded c e pin key s).1.sessions)

  change_pin-AllRevoked :
      (d : Draws) (old new actor : String) (key : Option String) (s t : Service)
      → change_pin c e d old new actor key s ≡ (ok tt, t)
      → AllRevoked c t × (t.pin ≡ some (hash_pin c d.salt new)) × (t.disk ≡ some t.state)
  unfolding change_pin audit persist validate_pin
  change_pin-AllRevoked d old new actor key s t h =
      ground
        (arith, map-revoke_live e.now "pin-changed" (verify_pin_guarded c e old key s).1.sessions)

  -- Once `revoke_all` has returned, no token opens a session, at any later call.
  pub authenticate-revoke_all :
      (pin actor : String) (key : Option String) (s t : Service) (n : ℕ) (later : Env)
      (token : Option String) (touch : Bool)
      → revoke_all c e pin actor key s ≡ (ok n, t)
      → (authenticate c later token touch t).0 ≡ ok none
  authenticate-revoke_all pin actor key s t n later token touch h =
      authenticate-AllRevoked c later token touch t (revoke_all-AllRevoked pin actor key s t n h)

  -- Once `change_pin` has returned, no token opens a session, and the new PIN verifies; what it
  -- wrote is on disk. (base64 and PBKDF2 are taken to be lawful.)
  pub authenticate-change_pin :
      (d : Draws) (old new actor : String) (key : Option String) (s t : Service) (later : Env)
      (token : Option String) (touch : Bool)
      → IsLawful c
      → change_pin c e d old new actor key s ≡ (ok tt, t)
      → ((authenticate c later token touch t).0 ≡ ok none)
        × (verify_pin c t.pin new ≡ ok true)
        × (t.disk ≡ some t.state)
  authenticate-change_pin d old new actor key s t later token touch law h =
      let (shut, known, written) = change_pin-AllRevoked d old new actor key s t h in
      (
        authenticate-AllRevoked c later token touch t shut,
        rw known (verify_pin-hash_pin c law d.salt new),
        written,
      )
