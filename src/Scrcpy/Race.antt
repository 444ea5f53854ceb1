-- ===== src/Scrcpy/Race.antt =====
-- A stop that overtakes a start.
use droid_web_display.Common.{ℕ, String, true, false, Option, some, ◌≡◌, ◌≢◌, refl, arith, eq_iff}
use droid_web_display.Common.Table.{find-update}
use droid_web_display.Scrcpy.Session.{ScrcpySession, is_active, running}
use droid_web_display.Scrcpy.Manager.{id_of, session_at, start_succeeded}
use droid_web_display.Scrcpy.Steps.{World, launches, Reach, next, mark, fresh, IsExclusive, Anytime}

-- Where stops may begin at any time: in every world that can be reached, if the start of session
-- `i` still connects its channels while another session `j` of the same device is active, then the
-- world in which that start goes through can be reached too, and there both sessions are active,
-- `i` running whatever its state was before.
pub overtaken :
    (artifact : Option String) (w : World) (i j : String) (s t : ScrcpySession) (now : ℕ)
    → Reach Anytime (fresh artifact) w
    → w.launching i ≡ true
    → session_at i w.manager ≡ some s
    → session_at j w.manager ≡ some t
    → is_active t.state ≡ true
    → s.serial ≡ t.serial
    → i ≢ j
    → (x : World) × Reach Anytime (fresh artifact) x
      × (session_at i x.manager ≡ some (record s { state = running; started_at = some now }))
      × ¬ IsExclusive x
unfolding start_succeeded is_active
overtaken artifact w i j s t now r starts found other on same differ =
    let f : ScrcpySession → ScrcpySession =
      λ u. record u { state = running; started_at = some now } in
    let here_i : session_at i (start_succeeded now i w.manager).1 ≡ some (f s) =
      ground (arith, found, eq_iff i i, find-update id_of f (λ u. refl) i i w.sessions) in
    let here_j : session_at j (start_succeeded now i w.manager).1 ≡ some t =
      ground (arith, other, differ, eq_iff i j, find-update id_of f (λ u. refl) i j w.sessions) in
    (
      record w {
        manager = (start_succeeded now i w.manager).1;
        launching = mark w.launching i false;
      },
      next r (launches now i starts),
      here_i,
      (λ exclusive. differ (exclusive i j (f s) t here_i here_j refl on same)),
    )
