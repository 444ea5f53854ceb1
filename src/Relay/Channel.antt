-- ===== src/Relay/Channel.antt =====
-- `claim` and `release` of `ScrcpyChannel` in droid_web_display/scrcpy/session.py, each under the
-- channel's lock.
use droid_web_display.Common.{
  ℕ, String, Bool, false, ◌≡◌, ◌≢◌, Option, none, some, str_eq, if◌then◌else◌, ok, err, Method,
  arith, eq_iff, Option-cases,
}

pub record ScrcpyChannel : Type 0 where
  pub attached_client : Option String
  pub attached_at : Option ℕ
  pub relay_close_reason : Option String

-- The SessionConflictError, with the client that holds the channel.
pub record Conflict : Type 0 where
  pub client_id : String

abbrev pub claim_from : Option String → ℕ → String → Method Conflict ScrcpyChannel (Unit {0})
claim_from (some holder) now client c = (err (record { client_id = holder }), c)
claim_from none now client c = (
  ok tt,
  record { attached_client = some client; attached_at = some now; relay_close_reason = none },
)

unfoldable pub claim : ℕ → String → Method Conflict ScrcpyChannel (Unit {0})
claim now client c = claim_from c.attached_client now client c

abbrev pub holds : Option String → String → Bool
holds none client = false
holds (some holder) client = str_eq holder client

unfoldable pub release : String → Option String → ScrcpyChannel → ScrcpyChannel
release client reason c =
    if holds c.attached_client client
    then record c { attached_client = none; relay_close_reason = reason }
    else c

-- Whoever else releases it, a channel stays with the client that claimed it, and a second claim is
-- refused with that client's name.
claim-claim :
    (now later : ℕ) (first second other : String) (reason : Option String) (c : ScrcpyChannel)
    → other ≢ first
    → (claim now first c).0 ≡ ok tt
    → (claim later second (release other reason (claim now first c).1)).0
      ≡ err (record { client_id = first })
unfolding claim release
claim-claim now later first second other reason c n h =
    ground (arith, n, h, eq_iff first other, Option-cases c.attached_client)
