-- ===== src/Auth/Setup.antt =====
-- First-run setup: all or nothing.
use droid_web_display.Common.{String, ◌≡◌, some, true, arith, ok, err}
use droid_web_display.Auth.Types.{
  AuthError, SessionGrant, Service, Env, Request, Draws, Crypto, IsLawful,
}
use droid_web_display.Auth.Rules.{validate_pin}
use droid_web_display.Auth.Store.{audit, persist, hash_pin, verify_pin, create_session}
use droid_web_display.Auth.Service.{setup}
use droid_web_display.Auth.Digests.{verify_pin-hash_pin}

module _ (c : Crypto) (e : Env) (d : Draws) (pin : String) (r : Request) (s : Service) where
  -- A setup that raises leaves the service as it was, in memory and on disk.
  pub setup-rollback : (f : AuthError) (t : Service) → setup c e d pin r s ≡ (err f, t) → t ≡ s
  unfolding setup audit persist create_session
  setup-rollback f t h = ground arith

  setup-pin :
      (g : SessionGrant) (t : Service)
      → setup c e d pin r s ≡ (ok g, t)
      → (t.disk ≡ some t.state) × (t.pin ≡ some (hash_pin c d.salt pin))
  unfolding setup audit persist create_session validate_pin
  setup-pin g t h = ground arith

  -- A setup that returns a grant has written the state to disk, and its PIN is the one that
  -- verifies from then on (where base64 and PBKDF2 are lawful).
  pub setup-verify_pin :
      (g : SessionGrant) (t : Service)
      → IsLawful c
      → setup c e d pin r s ≡ (ok g, t)
      → (t.disk ≡ some t.state) × (verify_pin c t.pin pin ≡ ok true)
  setup-verify_pin g t law h =
      let (written, known) = setup-pin g t h in
      (written, rw known (verify_pin-hash_pin c law d.salt pin))
