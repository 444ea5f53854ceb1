-- ===== src/Auth/Digests.antt =====
-- The digest of a PIN: what `_hash_pin` writes, `_verify_pin` accepts.
use droid_web_display.Common.{String, ◌≡◌, true, ok, some, List, [], ◌∷◌, ℕ, arith, refl, ap}
use droid_web_display.Auth.Types.{Crypto, IsLawful}
use droid_web_display.Auth.Store.{same_bytes, pbkdf2_iterations, hash_pin, verify_pin}

pub same_bytes_self : (b : List ℕ) → same_bytes b b ≡ true
unfolding same_bytes
same_bytes_self [] = refl
same_bytes_self (x ∷ xs) = ground (arith, same_bytes_self xs)

module _ (c : Crypto) (law : IsLawful c) where
  pub verify_pin-hash_pin :
      (salt : List ℕ) (pin : String) → verify_pin c (some (hash_pin c salt pin)) pin ≡ ok true
  unfolding verify_pin hash_pin
  verify_pin-hash_pin salt pin =
      rw
        (
          law.decode-encode salt,
          law.decode-encode (c.pbkdf2 pin salt pbkdf2_iterations 32),
          law.length-pbkdf2 pin salt pbkdf2_iterations 32,
        )
        (ap ok (same_bytes_self (c.pbkdf2 pin salt pbkdf2_iterations 32)))
