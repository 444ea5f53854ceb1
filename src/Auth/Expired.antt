-- ===== src/Auth/Expired.antt =====
-- A token past its time.
use droid_web_display.Common.{
  ℕ, String, ◌≡◌, refl, Bool, none, some, true, false, arith, ok, List, [], ◌∷◌, str_eq, map, any,
}
use droid_web_display.Auth.Types.{Session, Service, Env, Crypto}
use droid_web_display.Auth.Store.{is_due, expire, sweep, cleanup_expired}
use droid_web_display.Auth.Service.{find_token, authenticate}
use droid_web_display.Auth.Tokens.{find_token-expire}

none_due_after :
    (now : ℕ) (items : List Session) → any (is_due now) (map (expire now) items) ≡ false
unfolding is_due expire
none_due_after now [] = refl
none_due_after now (item ∷ items) = ground (arith, none_due_after now items)

module _ (c : Crypto) (e : Env) (token : String) (touch : Bool) (s : Service) (item : Session) where
  -- The token of a live session whose time has come is refused, and in memory every session past
  -- its time is revoked; but this call writes nothing to disk, whatever it has swept.
  pub authenticate-expired :
      str_eq token "" ≡ false
      → find_token c (c.token_digest token) s.sessions ≡ some item
      → is_due e.now item ≡ true
      → ((authenticate c e (some token) touch s).0 ≡ ok none)
        × (any (is_due e.now) (authenticate c e (some token) touch s).1.sessions ≡ false)
        × (find_token c (c.token_digest token) (authenticate c e (some token) touch s).1.sessions
            ≡ some (expire e.now item))
        × ((authenticate c e (some token) touch s).1.disk ≡ s.disk)
  unfolding authenticate cleanup_expired sweep expire
  authenticate-expired full found due =
      let swept = find_token-expire c (c.token_digest token) e.now s.sessions in
      (
        ground (arith, swept, none_due_after e.now s.sessions),
        ground (arith, swept, none_due_after e.now s.sessions),
        ground (arith, swept),
        ground (arith, swept),
      )
