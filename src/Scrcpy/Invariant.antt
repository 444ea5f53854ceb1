-- ===== src/Scrcpy/Invariant.antt =====
-- The invariant behind exclusive sessions, and that each change to the manager keeps it.
use mathlib.Core.Path.{subst}
use droid_web_display.Common.{
  ℕ, String, true, false, none, some, List, [], ◌∷◌, ◌≡◌, refl, sym, ◌⊎◌, inl, inr, str_eq, arith,
  eq_iff, lookup, lookup-erase, Dict, Option-cases, Bool-cases,
}
use droid_web_display.Common.Table.{find, update, discard, find-update, find-discard}
use droid_web_display.Scrcpy.Session.{ScrcpySession, Manager, is_active}
use droid_web_display.Scrcpy.Manager.{
  id_of, session_at, discard_all, prune, release, stamp, retire, edit,
}

find-discard_all :
    (id : String) (ss xs : List ScrcpySession)
    → (find id_of id (discard_all ss xs) ≡ none)
      ⊎ (find id_of id (discard_all ss xs) ≡ find id_of id xs)
unfolding discard_all
find-discard_all id [] xs = inr refl
find-discard_all id (s ∷ ss) xs =
    ground (
      arith,
      find-discard_all id ss (discard id_of (id_of s) xs),
      find-discard id_of (id_of s) id xs,
    )

pub find-prune :
    (id : String) (xs : List ScrcpySession)
    → (find id_of id (prune xs) ≡ none) ⊎ (find id_of id (prune xs) ≡ find id_of id xs)
unfolding prune
find-prune id xs = find-discard_all id _ xs

-- An active session is the one that the index names for its device.
abbrev pub IsClaimed : Manager → Type 0
IsClaimed m =
    (id : String) (s : ScrcpySession)
    → session_at id m ≡ some s
    → is_active s.state ≡ true
    → lookup s.serial m.serial_index ≡ some id

-- A release drops at most the entry that names the session itself.
lookup-release :
    (serial id key : String) (index : Dict String)
    → (lookup key (release serial id index) ≡ lookup key index) ⊎ (lookup key index ≡ some id)
lookup-release serial id key index = elim (Option-cases (lookup serial index)) [
  | inl free ↦ inl (rw (free, release))
  | inr (holder, held) ↦
      ground (arith, held, lookup-erase serial key index, eq_iff serial key, eq_iff holder id)
]

-- Every session but that of `id` is in the second manager only as it was in the first.
abbrev pub Others : String → Manager → Manager → Type 0
Others id m n =
    (j : String) (s : ScrcpySession)
    → str_eq id j ≡ false
    → session_at j n ≡ some s
    → session_at j m ≡ some s

-- A change to one session's fields, other than its id.
module _ (id : String) (f : ScrcpySession → ScrcpySession)
    (same : (s : ScrcpySession) → id_of (f s) ≡ id_of s) (m : Manager) where
  pub edit-Others : Others id m (edit id f m).1
  edit-Others j s other h = ground (arith, h, other, find-update id_of f same id j m.sessions)

  -- What the change finds under `id` was there before.
  pub edit_self :
      (s : ScrcpySession)
      → session_at id (edit id f m).1 ≡ some s
      → (t : ScrcpySession) × (session_at id m ≡ some t) × (s ≡ f t)
  edit_self s h = elim (Option-cases (session_at id m)) [
    | inl absent ↦
        absurd (ground (arith, h, absent, find-update id_of f same id id m.sessions, eq_iff id id))
    | inr (t, found) ↦ (
      t,
      found,
      ground (arith, h, found, find-update id_of f same id id m.sessions, eq_iff id id),
    )
  ]

  pub edit-IsClaimed :
      ((s : ScrcpySession) → (f s).serial ≡ s.serial)
      → ((s : ScrcpySession)
          → session_at id m ≡ some s
          → is_active (f s).state ≡ true
          → is_active s.state ≡ true)
      → IsClaimed m
      → IsClaimed (edit id f m).1
  edit-IsClaimed keeps wakes claimed j s found active = elim (Bool-cases (str_eq id j)) [
    | inl self ↦
        let e : id ≡ j = (eq_iff id j).0 self in
        let (t, before, changed) =
          edit_self s (subst (λ k. session_at k (edit id f m).1 ≡ some s) (sym e) found) in
        let held = claimed id t before (wakes t before (rw (← changed) active)) in
        subst (λ k. lookup s.serial m.serial_index ≡ some k) e (rw (changed, keeps t) held)
    | inr other ↦ claimed j s (edit-Others j s other found) active
  ]

-- Retiring a session that is not active.
module _ (now : ℕ) (id serial : String) (m : Manager) where
  pub retire-Others : Others id m (retire now id serial m).1
  unfolding retire
  retire-Others j s other h = ground (
    arith,
    h,
    other,
    find-prune j (update id_of id (stamp now) m.sessions),
    find-update id_of (stamp now) (λ t. refl) id j m.sessions,
  )

  pub retire_self :
      (s : ScrcpySession)
      → session_at id (retire now id serial m).1 ≡ some s
      → (t : ScrcpySession) × (session_at id m ≡ some t) × (s ≡ stamp now t)
  unfolding retire
  retire_self s h =
      edit_self id (stamp now) (λ t. refl) m s
        (ground (arith, h, find-prune id (update id_of id (stamp now) m.sessions)))

  pub retire-IsClaimed :
      ((s : ScrcpySession) → session_at id m ≡ some s → is_active s.state ≡ false)
      → IsClaimed m
      → IsClaimed (retire now id serial m).1
  retire-IsClaimed dead claimed j s found active = elim (Bool-cases (str_eq id j)) [
    | inl self ↦
        let e : id ≡ j = (eq_iff id j).0 self in
        let (t, before, changed) =
          retire_self s
            (subst (λ k. session_at k (retire now id serial m).1 ≡ some s) (sym e) found) in
        absurd (ground (arith, dead t before, active, changed))
    | inr other ↦
        let held = claimed j s (retire-Others j s other found) active in
        unfold retire in
        ground (arith, held, other, lookup-release serial id s.serial m.serial_index, eq_iff id j)
  ]
