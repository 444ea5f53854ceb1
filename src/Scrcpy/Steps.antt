-- ===== src/Scrcpy/Steps.antt =====
-- How calls of `SessionManager` interleave: the steps that they take between their awaits, with the
-- calls that are under way.
use droid_web_display.Common.{
  ℕ, String, Bool, true, false, Option, none, some, List, [], ◌≡◌, Result, ok, err, str_eq,
  if◌then◌else◌, ◌>>◌,
}
use droid_web_display.Common.Table.{find}
use droid_web_display.Scrcpy.Options.{SessionOptions}
use droid_web_display.Scrcpy.Session.{
  AndroidDevice, ScrcpySession, Manager, Failure, Action, Draws, is_active,
}
use droid_web_display.Scrcpy.Manager.{
  id_of, session_at, edit, begin_start, start_succeeded, start_failed, cleaned, retire,
}
use droid_web_display.Scrcpy.Control.{
  stop_begin, stop_end, record_virtual_resize, mark_application_launch, handle_log_line, Lifecycle,
}

-- The ids for which a `start_session` connects its channels, or has failed and releases its
-- resources, and those for which a `stop_session` releases them.
pub record World : Type 0 where
  pub manager : Manager
  pub open manager use *
  pub launching : String → Bool
  pub failing : String → Bool
  pub halting : String → Bool

abbrev pub mark : (String → Bool) → String → Bool → String → Bool
mark set id b j = if str_eq id j then b else set j

-- The end of `start_session` where it has failed: the resources are released, the session retires.
abbrev pub give_up : ℕ → String → String → Action (Unit {0})
give_up now id serial = do edit id cleaned; retire now id serial

-- `allowed` says of which session, in which situation, a stop may begin.
module _ (allowed : World → String → Type 0) where
  pub data Step (w : World) : World → Type 0 where
    begins :
        {m : Manager} (now : ℕ) (d : Draws) (serial : Option String) (devices : List AndroidDevice)
        (loader : Option (Result Failure String)) (o : SessionOptions) (chosen : String)
        → begin_start now d serial devices loader o w.manager ≡ (ok chosen, m)
        → find id_of d.session_id w.sessions ≡ none
        → str_eq d.session_id "" ≡ false
        → w.failing d.session_id ≡ false
        → w.halting d.session_id ≡ false
        → Step w (record w { manager = m; launching = mark w.launching d.session_id true })
    refuses :
        {m : Manager} (now : ℕ) (d : Draws) (serial : Option String) (devices : List AndroidDevice)
        (loader : Option (Result Failure String)) (o : SessionOptions) (f : Failure)
        → begin_start now d serial devices loader o w.manager ≡ (err f, m)
        → Step w (record w { manager = m })
    launches :
        (now : ℕ) (id : String)
        → w.launching id ≡ true
        → Step w (record w {
          manager = (start_succeeded now id w.manager).1;
          launching = mark w.launching id false;
        })
    breaks :
        (id error : String)
        → w.launching id ≡ true
        → Step w (record w {
          manager = (start_failed id error w.manager).1;
          launching = mark w.launching id false;
          failing = mark w.failing id true;
        })
    gives_up :
        (now : ℕ) (id serial : String)
        → w.failing id ≡ true
        → Step w (record w {
          manager = (give_up now id serial w.manager).1;
          failing = mark w.failing id false;
        })
    halts :
        {m : Manager} (id reason : String)
        → allowed w id
        → stop_begin id reason w.manager ≡ (ok true, m)
        → Step w (record w { manager = m; halting = mark w.halting id true })
    ends :
        (now : ℕ) (id serial reason : String)
        → w.halting id ≡ true
        → Step w (record w {
          manager = (stop_end now id serial reason w.manager).1;
          halting = mark w.halting id false;
        })
    resizes :
        (id : String) (width height : ℕ)
        → Step w (record w { manager = (record_virtual_resize id width height w.manager).1 })
    launches_app :
        (id result : String)
        → Step w (record w { manager = (mark_application_launch id result w.manager).1 })
    logs :
        (id : String) (lifecycle : Option Lifecycle) (app : Option (String × Option String))
        → Step w (record w { manager = (edit id (handle_log_line lifecycle app) w.manager).1 })

  pub data Reach (v : World) : World → Type 0 where
    here : Reach v v
    next : {w x : World} → Reach v w → Step w x → Reach v x

-- A manager that has just been made.
abbrev pub fresh : Option String → World
fresh artifact = record {
  manager = record { sessions = []; serial_index = []; artifact = artifact };
  launching = λ id. false;
  failing = λ id. false;
  halting = λ id. false;
}

-- No two sessions of one device are active.
abbrev pub IsExclusive : World → Type 0
IsExclusive w =
    (i j : String) (s t : ScrcpySession)
    → session_at i w.manager ≡ some s
    → session_at j w.manager ≡ some t
    → is_active s.state ≡ true
    → is_active t.state ≡ true
    → s.serial ≡ t.serial
    → i ≡ j

-- A stop begins at any time; or only where no start of that session is under way.
abbrev pub Anytime : World → String → Type 0
Anytime w id = Unit

abbrev pub Settled : World → String → Type 0
Settled w id = w.launching id ≡ false
