-- ===== src/Scrcpy/Exclusive.antt =====
-- At most one active session for a device, where no stop overtakes a start.
use droid_web_display.Common.{
  ℕ, String, Bool, true, false, Option, some, ◌≡◌, refl, ◌⊎◌, inl, inr, ok, arith, eq_iff,
}
use droid_web_display.Common.Table.{find}
use droid_web_display.Scrcpy.Session.{ScrcpySession, Manager, is_active, stopping}
use droid_web_display.Scrcpy.Manager.{id_of, edit, start_succeeded, start_failed, cleaned}
use droid_web_display.Scrcpy.Control.{
  get_session, stop_begin, stop_end, final_state, record_virtual_resize, mark_application_launch,
  handle_log_line, Lifecycle, resized,
}
use droid_web_display.Scrcpy.Steps.{
  World, Step, begins, refuses, launches, breaks, gives_up, halts, ends, resizes, launches_app,
  logs, Reach, here, next, fresh, IsExclusive, Settled,
}
use droid_web_display.Scrcpy.Soundness.{
  IsSound, begin_start_lem, begin_start_err, edit_step, retire_step, begins-IsSound,
}

stop_begin_lem :
    (id reason : String) (m n : Manager)
    → stop_begin id reason m ≡ (ok true, n)
    → n ≡ (edit id (λ t. record t { state = stopping; stop_reason = some reason }) m).1
unfolding stop_begin get_session
stop_begin_lem id reason m n h = ground arith

final_state-inactive : (reason : String) → is_active (final_state reason) ≡ false
unfolding final_state is_active
final_state-inactive reason = ground arith

-- A call that edits nothing but fields of one session that say nothing of its activity.
quiet_edit :
    (w : World) (id : String) (f : ScrcpySession → ScrcpySession)
    → ((s : ScrcpySession) → id_of (f s) ≡ id_of s)
    → ((s : ScrcpySession) → (f s).serial ≡ s.serial)
    → ((s : ScrcpySession) → (f s).state ≡ s.state)
    → IsSound w
    → IsSound (record w { manager = (edit id f w.manager).1 })
quiet_edit w id f same keeps still sound =
    edit_step w id f same keeps w.launching w.failing w.halting sound
      (λ j other. (refl, refl, refl))
      λ t found. (rw still (λ on. on), rw still (sound.fits id t found))

not_both : (b : Bool) {a : Bool} → (b ≡ true → a ≡ true) → a ≡ false → b ≡ false
not_both true h off = cc (h refl, off)
not_both false h off = refl

resize_lem :
    (id : String) (width height : ℕ) (m : Manager)
    → ((record_virtual_resize id width height m).1 ≡ m)
      ⊎ ((record_virtual_resize id width height m).1 ≡ (edit id (resized width height) m).1)
unfolding record_virtual_resize get_session
resize_lem id width height m = ground arith

mark_lem :
    (id result : String) (m : Manager)
    → ((mark_application_launch id result m).1 ≡ m)
      ⊎ ((mark_application_launch id result m).1
          ≡ (edit id (λ t. record t { application_launch_result = result }) m).1)
unfolding mark_application_launch get_session
mark_lem id result m = ground arith

log_lem :
    (lifecycle : Option Lifecycle) (app : Option (String × Option String)) (s : ScrcpySession)
    → (id_of (handle_log_line lifecycle app s) ≡ id_of s)
      × ((handle_log_line lifecycle app s).serial ≡ s.serial)
      × ((handle_log_line lifecycle app s).state ≡ s.state)
unfolding handle_log_line
log_lem lifecycle app s = ground arith

Step-IsSound : {w x : World} → Step Settled w x → IsSound w → IsSound x
unfolding start_succeeded start_failed is_active stop_end
Step-IsSound {w} (begins now d serial devices loader o chosen h new full f g) sound =
    let (free, sessions, index) = begin_start_lem now d serial devices loader o chosen _ _ h in
    begins-IsSound w now d chosen o _ free sessions index full f g sound
Step-IsSound {w} (refuses {m} now d serial devices loader o f h) sound =
    let (sessions, index) = begin_start_err now d serial devices loader o f _ _ h in
    record {
      claimed = λ id s found on. rw index (sound.claimed id s (rw sessions at found) on);
      fits = λ id s found. sound.fits id s (rw sessions at found);
    }
Step-IsSound {w} (launches now id h) sound =
    edit_step w id _ (λ s. refl) (λ s. refl) _ _ _ sound (λ j other. (rw other, refl, refl))
      λ t found.
        let (p, q, r, named) = sound.fits id t found in
        ((λ _. p h), ((λ _. refl), (λ e. cc (q e, p h)), (λ e. cc (r e, p h)), named))
Step-IsSound {w} (breaks id error h) sound =
    edit_step w id _ (λ s. refl) (λ s. refl) _ _ _ sound (λ j other. (rw other, rw other, refl))
      λ t found. (
        (λ on. cc),
        (
          (λ e. rw ((eq_iff id id).1 refl) at e),
          (λ _. refl),
          (λ _. refl),
          (sound.fits id t found).3,
        ),
      )
Step-IsSound {w} (gives_up now id serial h) sound =
    retire_step w id cleaned (λ s. refl) (λ s. refl) _ _ _ sound now serial
      (λ j other. (refl, rw other, refl))
      (λ t found. not_both (w.launching id) (sound.fits id t found).0 ((sound.fits id t found).1 h))
      λ t found. (sound.fits id t found).1 h
Step-IsSound {w} (halts id reason quiet h) sound = rw (stop_begin_lem id reason w.manager _ h) (
    edit_step w id _ (λ s. refl) (λ s. refl) _ _ _ sound (λ j other. (refl, refl, rw other))
      λ t found.
        ((λ on. cc), ((λ e. cc (quiet, e)), (λ _. refl), (λ _. refl), (sound.fits id t found).3)))
Step-IsSound {w} (ends now id serial reason h) sound =
    retire_step w id _ (λ s. refl) (λ s. refl) _ _ _ sound now serial
      (λ j other. (refl, refl, rw other))
      (λ t found. not_both (w.launching id) (sound.fits id t found).0 ((sound.fits id t found).2 h))
      λ t found. final_state-inactive reason
Step-IsSound {w} (resizes id width height) sound = elim (resize_lem id width height w.manager) [
  | inl none_done ↦ rw none_done sound
  | inr edited ↦ rw edited (quiet_edit w id _ (λ s. refl) (λ s. refl) (λ s. refl) sound)
]
Step-IsSound {w} (launches_app id result) sound = elim (mark_lem id result w.manager) [
  | inl none_done ↦ rw none_done sound
  | inr edited ↦ rw edited (quiet_edit w id _ (λ s. refl) (λ s. refl) (λ s. refl) sound)
]
Step-IsSound {w} (logs id lifecycle app) sound =
    quiet_edit w id (handle_log_line lifecycle app) (λ s. (log_lem lifecycle app s).0)
      (λ s. (log_lem lifecycle app s).1) (λ s. (log_lem lifecycle app s).2) sound

Reach-IsSound : {v w : World} → Reach Settled v w → IsSound v → IsSound w
Reach-IsSound here sound = sound
Reach-IsSound (next r st) sound = Step-IsSound st (Reach-IsSound r sound)

fresh-IsSound : (artifact : Option String) → IsSound (fresh artifact)
unfolding find
fresh-IsSound artifact = record { claimed = λ id s h. cc; fits = λ id s h. cc }

-- From a new manager on, in any interleaving of starts, failed starts, stops, resizes and log lines
-- in which no stop begins on a session whose start is still connecting its channels, no two
-- sessions of one device are active.
pub Reach-IsExclusive :
    (artifact : Option String) (w : World) → Reach Settled (fresh artifact) w → IsExclusive w
Reach-IsExclusive artifact w r i j s t hi hj on_i on_j same =
    let sound = Reach-IsSound r (fresh-IsSound artifact) in
    let held_i = sound.claimed i s hi on_i in
    let held_j = sound.claimed j t hj on_j in cc (held_i, held_j, same)
