-- ===== src/Auth/Guessing.antt =====
-- How many wrong PINs a client may try before it is locked out.
use droid_web_display.Common.{ℕ, ◌+◌, ◌≤◌, String, ◌≡◌, Option, some, false, ok, List, [], ◌∷◌}
use droid_web_display.Auth.Types.{
  micros, AttemptState, PinRecord, Service, Env, Draws, Request, Crypto,
}
use droid_web_display.Auth.Store.{verify_pin}
use droid_web_display.Auth.Service.{login}
use droid_web_display.Auth.Lockout.{count_failure, lock, verify_pin_guarded, attempts_of}

-- Where a PIN is tried: at a guarded check, or at `login`.
pub data Door : Type 0 where
  at_check : Door
  at_login : Draws → Request → Door

pub record Guess : Type 0 where
  pub at : Env
  pub pin : String
  pub door : Door

-- The attempts of a client after `n` wrong PINs from time `first` on, before any lock.
abbrev pub counted : ℕ → ℕ → AttemptState
counted n first = record { failures = n; first_failure_at = first; locked_until = 0 }

module _ (c : Crypto) (key : String) where
  abbrev pub guess : Guess → Service → Service
  guess g s = elim g.door [
    | at_check ↦ (verify_pin_guarded c g.at g.pin (some key) s).1
    | at_login d r ↦ (login c g.at d g.pin r key s).1
  ]

  abbrev pub guess_all : List Guess → Service → Service
  guess_all [] s = s
  guess_all (g ∷ gs) s = guess_all gs (guess g s)

  -- A wrong PIN, within five minutes of `first`.
  abbrev pub IsWrong : Option PinRecord → ℕ → Guess → Type 0
  IsWrong stored first g =
      (verify_pin c stored g.pin ≡ ok false) × (first ≤ g.at.now) × (g.at.now ≤ first + micros 300)

  -- The attempts that a wrong PIN leaves, from those before it.
  abbrev charged : ℕ → Option AttemptState → AttemptState
  charged now old = (lock now (count_failure now (attempts_of old))).0
