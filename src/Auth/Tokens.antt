-- ===== src/Auth/Tokens.antt =====
-- Which session a token opens, before and after expired sessions are swept.
use mathlib.Core.Option
use droid_web_display.Common.{
  ℕ, String, ◌≡◌, refl, Bool, Option, none, some, true, false, arith, ok, List, [], ◌∷◌, ◌++◌, map,
  is_some, str_eq, any, All, Option-cases, inl, inr,
}
use droid_web_display.Auth.Types.{Session, PublicSession, Service, Env, Crypto}
use droid_web_display.Auth.Store.{persist, has_passed, is_due, expire, sweep, cleanup_expired}
use droid_web_display.Auth.Service.{find_token, authenticate}

module _ (c : Crypto) where
  pub find_token-expire :
      (digest : String) (now : ℕ) (items : List Session)
      → find_token c digest (map (expire now) items)
        ≡ Option.map (expire now) (find_token c digest items)
  unfolding find_token expire
  find_token-expire digest now [] = refl
  find_token-expire digest now (item ∷ items) = ground (arith, find_token-expire digest now items)

  pub find_token-append :
      (digest : String) (items : List Session) (item : Session)
      → find_token c digest items ≡ none
      → str_eq item.token_hash digest ≡ true
      → find_token c digest (items ++ (item ∷ [])) ≡ some item
  unfolding find_token
  find_token-append digest [] item absent same = rw same
  find_token-append digest (i ∷ items) item absent same =
      ground (arith, find_token-append digest items item)

  -- A token that `authenticate` accepts has the digest of a session that was neither revoked nor
  -- past its time, and it is that session that the caller gets.
  pub authenticate_sound :
      (e : Env) (token : String) (touch : Bool) (s t : Service) (p : PublicSession)
      → authenticate c e (some token) touch s ≡ (ok (some p), t)
      → (item : Session) × (find_token c (c.token_digest token) s.sessions ≡ some item)
        × (item.revoked_at ≡ none)
        × (has_passed e.now item.expires_at ≡ false)
        × (p.session_id ≡ item.session_id)
  unfolding authenticate cleanup_expired sweep expire is_due persist
  authenticate_sound e token touch s t p h =
      let swept = find_token-expire (c.token_digest token) e.now s.sessions in
      elim (Option-cases (find_token c (c.token_digest token) s.sessions)) [
        | inl absent ↦ absurd (ground (arith, absent, swept))
        | inr (item, found) ↦ (
          item,
          found,
          ground (arith, found, swept),
          ground (arith, found, swept),
          ground (arith, found, swept),
        )
      ]

  abbrev pub AllRevoked : Service → Type 0
  AllRevoked s = All (λ item. is_some item.revoked_at ≡ true) s.sessions

  none_due :
      (now : ℕ) (items : List Session)
      → All (λ item. is_some item.revoked_at ≡ true) items
      → (any (is_due now) items ≡ false) × (map (expire now) items ≡ items)
  unfolding is_due expire
  none_due now [] h = (refl, refl)
  none_due now (item ∷ items) (shut, h) = ground (arith, none_due now items h)

  find_token-revoked :
      (digest : String) (items : List Session) (item : Session)
      → All (λ item. is_some item.revoked_at ≡ true) items
      → find_token c digest items ≡ some item
      → is_some item.revoked_at ≡ true
  unfolding find_token
  find_token-revoked digest [] item h found = cc
  find_token-revoked digest (i ∷ items) item (shut, h) found =
      ground (arith, find_token-revoked digest items item h)

  -- Where every session is revoked, no token is accepted.
  pub authenticate-AllRevoked :
      (e : Env) (token : Option String) (touch : Bool) (s : Service)
      → AllRevoked s
      → (authenticate c e token touch s).0 ≡ ok none
  unfolding authenticate cleanup_expired sweep persist
  authenticate-AllRevoked e none touch s h = refl
  authenticate-AllRevoked e (some token) touch s h =
      elim (Option-cases (find_token c (c.token_digest token) s.sessions)) [
        | inl absent ↦ ground (arith, absent, none_due e.now s.sessions h)
        | inr (item, found) ↦ ground (
          arith,
          found,
          none_due e.now s.sessions h,
          find_token-revoked (c.token_digest token) s.sessions item h found,
        )
      ]
