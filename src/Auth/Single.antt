-- ===== src/Auth/Single.antt =====
-- Revoking one session: it alone is revoked, once.
use mathlib.Core.Option
use droid_web_display.Common.{
  ℕ, String, ◌≡◌, none, some, true, false, arith, ok, List, [], ◌∷◌, if◌then◌else◌, str_eq, eq_iff,
  Option-cases, inl, inr,
}
use droid_web_display.Auth.Types.{Session, Service, Env}
use droid_web_display.Auth.Store.{audit, persist, revoked, find_session, update_session}
use droid_web_display.Auth.Service.{revoke}

find_session-update_session :
    (now : ℕ) (reason id j : String) (items : List Session)
    → find_session j (update_session id (revoked now reason) items) ≡ (
        if str_eq id j
        then Option.map (revoked now reason) (find_session j items)
        else find_session j items)
unfolding find_session update_session
find_session-update_session now reason id j [] = ground arith
find_session-update_session now reason id j (item ∷ items) = ground (
  arith,
  find_session-update_session now reason id j items,
  eq_iff item.session_id id,
  eq_iff item.session_id j,
  eq_iff id j,
)

module _ (e : Env) (id actor : String) (s t : Service) where
  -- `revoke` returns true exactly where it finds a live session of that id and the write goes
  -- through. It then marks that session, leaves every other one as it was, saves the state, and
  -- returns false when it is called again.
  pub revoke_once :
      revoke e id actor s ≡ (ok true, t)
      → (item : Session) × (find_session id s.sessions ≡ some item)
        × (item.revoked_at ≡ none)
        × (find_session id t.sessions ≡ some (revoked e.now "individual" item))
        × ((j : String)
            → str_eq id j ≡ false
            → find_session j t.sessions ≡ find_session j s.sessions)
        × (t.disk ≡ some t.state)
        × ((later : Env) → revoke later id actor t ≡ (ok false, t))
  unfolding revoke audit persist
  revoke_once h = elim (Option-cases (find_session id s.sessions)) [
    | inl absent ↦ absurd (ground (arith, absent))
    | inr (item, found) ↦
        let self = find_session-update_session e.now "individual" id id s.sessions in
        (
          item,
          found,
          ground (arith, found),
          ground (arith, found, self, eq_iff id id),
          (λ j other.
              ground
                (arith, found, find_session-update_session e.now "individual" id j s.sessions)),
          ground (arith, found),
          (λ later. ground (arith, found, self, eq_iff id id)),
        )
  ]
