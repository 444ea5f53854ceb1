-- ===== src/Scrcpy/Soundness.antt =====
-- What holds of the scrcpy sessions beside the index, and how single steps keep it.
use mathlib.Core.Path.{subst}
use droid_web_display.Common.{
  ℕ, String, Bool, true, false, Option, some, List, ◌≡◌, refl, sym, ◌∙◌, inl, inr, Result, ok, err,
  str_eq, arith, eq_iff, lookup, insert, lookup-insert, Bool-cases,
}
use droid_web_display.Common.Table.{put, find-put}
use droid_web_display.Scrcpy.Options.{SessionOptions}
use droid_web_display.Scrcpy.Session.{
  AndroidDevice, ScrcpySession, Manager, Failure, Draws, is_active,
}
use droid_web_display.Scrcpy.Manager.{
  id_of, session_at, edit, register, begin_start, retire, held_by, new_session, resolve_artifact,
}
use droid_web_display.Scrcpy.Steps.{World, mark}
use droid_web_display.Scrcpy.Invariant.{
  IsClaimed, Others, edit-Others, edit_self, edit-IsClaimed, retire-Others, retire_self,
  retire-IsClaimed,
}

-- A session that is being started is active; one that is being released is not. Ids are not empty.
abbrev Fits : World → String → ScrcpySession → Type 0
Fits w id s =
    (w.launching id ≡ true → is_active s.state ≡ true)
    × (w.failing id ≡ true → is_active s.state ≡ false)
    × (w.halting id ≡ true → is_active s.state ≡ false)
    × (str_eq id "" ≡ false)

pub record IsSound (w : World) : Type 0 where
  pub claimed : IsClaimed w.manager
  pub fits : (id : String) (s : ScrcpySession) → session_at id w.manager ≡ some s → Fits w id s

-- A step that concerns one session is sound if it is so there.
module _ (id : String) (w x : World) (sound : IsSound w) where
  one_session :
      IsClaimed x.manager
      → Others id w.manager x.manager
      → ((j : String)
          → str_eq id j ≡ false
          → (x.launching j ≡ w.launching j)
            × (x.failing j ≡ w.failing j)
            × (x.halting j ≡ w.halting j))
      → ((s : ScrcpySession) → session_at id x.manager ≡ some s → Fits x id s)
      → IsSound x
  one_session claimed others flags self = record {
    claimed = claimed;
    fits = λ j s found. elim (Bool-cases (str_eq id j)) [
      | inl same ↦
          let e : id ≡ j = (eq_iff id j).0 same in
          subst (λ k. Fits x k s) e
            (self s (subst (λ k. session_at k x.manager ≡ some s) (sym e) found))
      | inr other ↦
          let (a, b, c) = flags j other in
          let (p, q, r, named) = sound.fits j s (others j s other found) in
          ((λ h. p (sym a ∙ h)), (λ h. q (sym b ∙ h)), (λ h. r (sym c ∙ h)), named)
    ];
  }

-- What a start that goes ahead has done.
pub begin_start_lem :
    (now : ℕ) (d : Draws) (serial : Option String) (devices : List AndroidDevice)
    (loader : Option (Result Failure String)) (o : SessionOptions) (chosen : String) (m n : Manager)
    → begin_start now d serial devices loader o m ≡ (ok chosen, n)
    → (held_by (lookup chosen m.serial_index) m ≡ false)
      × (n.sessions ≡ put id_of (new_session now d chosen o) m.sessions)
      × (n.serial_index ≡ insert chosen d.session_id m.serial_index)
unfolding begin_start register resolve_artifact
begin_start_lem now d serial devices loader o chosen m n h = ground arith

pub begin_start_err :
    (now : ℕ) (d : Draws) (serial : Option String) (devices : List AndroidDevice)
    (loader : Option (Result Failure String)) (o : SessionOptions) (f : Failure) (m n : Manager)
    → begin_start now d serial devices loader o m ≡ (err f, n)
    → (n.sessions ≡ m.sessions) × (n.serial_index ≡ m.serial_index)
unfolding begin_start register resolve_artifact
begin_start_err now d serial devices loader o f m n h = ground arith

new_session-active :
    (now : ℕ) (d : Draws) (serial : String) (o : SessionOptions)
    → is_active (new_session now d serial o).state ≡ true
unfolding is_active
new_session-active now d serial o = ground arith

module _ (now : ℕ) (d : Draws) (chosen : String) (o : SessionOptions) (m n : Manager) where
  registered :
      held_by (lookup chosen m.serial_index) m ≡ false
      → n.sessions ≡ put id_of (new_session now d chosen o) m.sessions
      → n.serial_index ≡ insert chosen d.session_id m.serial_index
      → ((j : String) (s : ScrcpySession) → session_at j m ≡ some s → str_eq j "" ≡ false)
      → IsClaimed m
      → IsClaimed n
  registered free sessions index named claimed j s found active =
      let item = new_session now d chosen o in
      ground (
        arith,
        free,
        index,
        active,
        rw sessions at found,
        find-put id_of j item m.sessions,
        lookup-insert chosen s.serial d.session_id m.serial_index,
        eq_iff chosen s.serial,
        eq_iff d.session_id j,
        named j s,
        claimed j s,
      )

abbrev with_flags : Manager → (String → Bool) → (String → Bool) → (String → Bool) → World
with_flags m l f h = record { manager = m; launching = l; failing = f; halting = h }

-- Flags that differ at most at `id`.
abbrev SameElsewhere : String → World → World → Type 0
SameElsewhere id w x =
    (j : String)
    → str_eq id j ≡ false
    → (x.launching j ≡ w.launching j) × (x.failing j ≡ w.failing j) × (x.halting j ≡ w.halting j)

-- Steps that edit one session, or edit it and retire it.
module _ (w : World) (id : String) (f : ScrcpySession → ScrcpySession)
    (same : (s : ScrcpySession) → id_of (f s) ≡ id_of s)
    (keeps : (s : ScrcpySession) → (f s).serial ≡ s.serial) (l g h : String → Bool)
    (sound : IsSound w) where
  pub edit_step :
      (let x = with_flags (edit id f w.manager).1 l g h in SameElsewhere id w x)
      → ((t : ScrcpySession)
          → session_at id w.manager ≡ some t
          → (is_active (f t).state ≡ true → is_active t.state ≡ true)
            × Fits (with_flags w.manager l g h) id (f t))
      → IsSound (with_flags (edit id f w.manager).1 l g h)
  edit_step flags self =
      one_session id w _ sound
        (edit-IsClaimed id f same w.manager keeps (λ t found. (self t found).0) sound.claimed)
        (edit-Others id f same w.manager) flags
        λ s found.
          let (t, before, changed) = edit_self id f same w.manager s found in
          rw changed (self t before).1

  pub retire_step :
      (now : ℕ) (serial : String)
      → SameElsewhere id w (with_flags w.manager l g h)
      → ((t : ScrcpySession) → session_at id w.manager ≡ some t → l id ≡ false)
      → ((t : ScrcpySession) → session_at id w.manager ≡ some t → is_active (f t).state ≡ false)
      → IsSound (with_flags (retire now id serial (edit id f w.manager).1).1 l g h)
  retire_step now serial flags done dead =
      let m = (edit id f w.manager).1 in
      let asleep : (s : ScrcpySession) → session_at id m ≡ some s → is_active s.state ≡ false =
        λ s found.
          let (t, before, changed) = edit_self id f same w.manager s found in
          rw changed (dead t before) in
      let claimed =
        edit-IsClaimed id f same w.manager keeps (λ t found on. cc (dead t found, on))
          sound.claimed in
      one_session id w _ sound (retire-IsClaimed now id serial m asleep claimed)
        (λ j s other found.
          edit-Others id f same w.manager j s other (retire-Others now id serial m j s other found))
        flags
        λ s found.
          let (t, before, stamped) = retire_self now id serial m s found in
          let (u, first, changed) = edit_self id f same w.manager t before in
          let off : is_active s.state ≡ false = rw stamped (asleep t before) in
          ((λ on. cc (done u first, on)), (λ _. off), (λ _. off), (sound.fits id u first).3)

pub begins-IsSound :
    (w : World) (now : ℕ) (d : Draws) (chosen : String) (o : SessionOptions) (n : Manager)
    → held_by (lookup chosen w.serial_index) w.manager ≡ false
    → n.sessions ≡ put id_of (new_session now d chosen o) w.sessions
    → n.serial_index ≡ insert chosen d.session_id w.serial_index
    → str_eq d.session_id "" ≡ false
    → w.failing d.session_id ≡ false
    → w.halting d.session_id ≡ false
    → IsSound w
    → IsSound (record w { manager = n; launching = mark w.launching d.session_id true })
begins-IsSound w now d chosen o n free sessions index full f h sound =
    let item = new_session now d chosen o in
    one_session d.session_id w _ sound
      (registered now d chosen o w.manager n free sessions index
        (λ j s found. (sound.fits j s found).3) sound.claimed)
      (λ j s other found.
        ground (arith, rw sessions at found, other, find-put id_of j item w.sessions))
      (λ j other. (rw other, refl, refl))
      λ s found.
        let shape : s ≡ item = ground (
          arith,
          rw sessions at found,
          find-put id_of d.session_id item w.sessions,
          eq_iff d.session_id d.session_id,
        ) in
        rw shape
          ((λ _. new_session-active now d chosen o), (λ g. cc (g, f)), (λ g. cc (g, h)), full)
