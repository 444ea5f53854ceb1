-- ===== src/Monitor/Streak.antt =====
-- When a watched file is taken to be stable.
use mathlib.Core.Path.{subst}
use droid_web_display.Common.{
  ℕ, suc, ◌-◌, ◌≤◌, String, Bool, true, false, ◌≡◌, refl, Option, none, some, List, [], ◌∷◌, All,
  arith, eq_iff, if◌then◌else◌,
}
use droid_web_display.Common.Table.{find, put, find-put}
use droid_web_display.Monitor.Types.{
  Print, same_print, FileStatus, Watched, Handled, Folder, Config,
}
use droid_web_display.Monitor.Observe.{path_of, is_handled, judge, is_stable, note_entry, seen}
use droid_web_display.Monitor.Marks.{same_print-eq, same_print_self}

-- What the sweeps have found of one file, the last first: the time and the fingerprint.
abbrev pub Sightings : Type 0
Sightings = List (ℕ × Print)

-- How many of the last sightings are of this fingerprint.
unfoldable pub streak : Print → Sightings → ℕ
streak p [] = 0
streak p ((t, q) ∷ h) = if same_print q p then suc (streak p h) else 0

-- The time of the first of them, and otherwise the time that is given.
unfoldable pub streak_start : ℕ → Print → Sightings → ℕ
streak_start now p [] = now
streak_start now p ((t, q) ∷ h) = if same_print q p then streak_start t p h else now

-- What an entry keeps of its sightings.
abbrev Counts : String → Sightings → Option Watched → Type 0
Counts path [] o = o ≡ none
Counts path ((t, p) ∷ h) none = ⊥
Counts path ((t, p) ∷ h) (some o) =
    (o.path ≡ path)
    × (o.fingerprint ≡ p)
    × (o.stable_observations ≡ suc (streak p h))
    × (o.last_changed_at ≡ streak_start t p h)

seen-Counts :
    (path : String) (t : ℕ) (p : Print) (h : Sightings) (o : Option Watched)
    → p.path ≡ path
    → Counts path h o
    → Counts path ((t, p) ∷ h) (some (seen t p o))
unfolding seen streak streak_start
seen-Counts path t p [] o same k = rw k (same, refl, refl, refl)
seen-Counts path t p ((u, q) ∷ h) none same k = elim k [ ]
seen-Counts path t p ((u, q) ∷ h) (some o) same k =
    ground (arith, same_print-eq q p, same_print-eq o.fingerprint p)

module _ (resting : FileStatus → Bool) (c : Config) where
  -- The folder after these sightings.
  unfoldable pub sighted : Sightings → Folder → Folder
  sighted [] f = f
  sighted ((t, p) ∷ h) f = (note_entry resting c t p (sighted h f)).0

  sighted-handled : (h : Sightings) (f : Folder) → (sighted h f).handled ≡ f.handled
  unfolding sighted note_entry
  sighted-handled [] f = refl
  sighted-handled ((t, p) ∷ h) f = sighted-handled h f

  judge_same :
      (now : ℕ) (hs : List Handled) (o : Watched)
      → ((judge resting c now hs o).0.fingerprint ≡ o.fingerprint)
        × ((judge resting c now hs o).0.stable_observations ≡ o.stable_observations)
        × ((judge resting c now hs o).0.last_changed_at ≡ o.last_changed_at)
        × ((judge resting c now hs o).0.path ≡ o.path)
  unfolding judge
  judge_same now hs o = ground arith

  judge-Counts :
      (path : String) (t : ℕ) (p : Print) (h : Sightings) (hs : List Handled) (o : Watched)
      → Counts path ((t, p) ∷ h) (some o)
      → Counts path ((t, p) ∷ h) (some (judge resting c t hs o).0)
  judge-Counts path t p h hs o k = ground (arith, judge_same t hs o)

  put-Counts :
      (path : String) (t : ℕ) (p : Print) (h : Sightings) (o : Watched) (os : List Watched)
      → Counts path ((t, p) ∷ h) (some o)
      → Counts path ((t, p) ∷ h) (find path_of path (put path_of o os))
  put-Counts path t p h o os k = rw (find-put path_of path o os, (eq_iff o.path path).1 k.0) k

  note_entry-Counts :
      (path : String) (t : ℕ) (p : Print) (h : Sightings) (f : Folder)
      → p.path ≡ path
      → Counts path h (find path_of path f.observed)
      → Counts path ((t, p) ∷ h) (find path_of path (note_entry resting c t p f).0.observed)
  unfolding note_entry
  note_entry-Counts path t p h f same k =
      subst
        (λ x.
          Counts x h (find path_of x f.observed)
          → Counts x ((t, p) ∷ h) (find path_of x (note_entry resting c t p f).0.observed))
        same (here h) k
    where
      here :
          (h : Sightings)
          → Counts p.path h (find path_of p.path f.observed)
          → Counts p.path ((t, p) ∷ h) (find path_of p.path (note_entry resting c t p f).0.observed)
      here h k =
          let o = seen t p (find path_of p.path f.observed) in
          put-Counts p.path t p h (judge resting c t f.handled o).0 f.observed (
            judge-Counts p.path t p h f.handled o
              (seen-Counts p.path t p h (find path_of p.path f.observed) refl k))

  -- The entries of one file, when all sightings are of its path.
  sighted-Counts :
      (path : String) (h : Sightings) (f : Folder)
      → find path_of path f.observed ≡ none
      → All (λ s. s.1.path ≡ path) h
      → Counts path h (find path_of path (sighted h f).observed)
  unfolding sighted
  sighted-Counts path [] f new k = new
  sighted-Counts path ((t, p) ∷ h) f new k =
      let before = sighted h f in
      note_entry-Counts path t p h before k.0 (sighted-Counts path h f new k.1)

  -- The judgement goes on to queue only what is stable and new.
  judge-due :
      (now : ℕ) (hs : List Handled) (o : Watched)
      → (judge resting c now hs o).1 ≡ true
      → (is_handled o.fingerprint hs ≡ false)
        × (c.stability_observations ≤ o.stable_observations)
        × (c.stability ≤ now - o.last_changed_at)
        × (o.next_retry_at ≤ now)
  unfolding judge is_stable
  judge-due now hs o h = ground arith

  Counts-some :
      (path : String) (t : ℕ) (p : Print) (h : Sightings) (o : Watched) (r : Option Watched)
      → r ≡ some o
      → Counts path ((t, p) ∷ h) r
      → Counts path ((t, p) ∷ h) (some o)
  Counts-some path t p h o r e k = subst (Counts path ((t, p) ∷ h)) e k

  -- However often a file is sighted, with nothing else done to its entry between, the entry has as
  -- its number of stable observations how many of the last sightings are of one fingerprint, and as
  -- the time of its last change the time of the first of these.
  pub sighted-streak :
      (t : ℕ) (p : Print) (h : Sightings) (f : Folder) (o : Watched)
      → find path_of p.path f.observed ≡ none
      → All (λ s. s.1.path ≡ p.path) h
      → find path_of p.path (sighted ((t, p) ∷ h) f).observed ≡ some o
      → (o.stable_observations ≡ streak p ((t, p) ∷ h))
        × (o.last_changed_at ≡ streak_start t p ((t, p) ∷ h))
  unfolding streak streak_start
  sighted-streak t p h f o new k there =
      let n =
        Counts-some p.path t p h o _ there (sighted-Counts p.path ((t, p) ∷ h) f new (refl, k)) in
      ground (arith, n.2, n.3, same_print_self p)

  -- Of a file that had no entry before, and whose entry nothing but its sightings under one
  -- configuration touched: an observation goes on to queue the file only where its fingerprint is
  -- not handled, and the last sightings of the file, this one with them, are of that fingerprint as
  -- often and for as long as the configuration asks.
  pub note_entry-due :
      (t : ℕ) (p : Print) (h : Sightings) (f : Folder)
      → find path_of p.path f.observed ≡ none
      → All (λ s. s.1.path ≡ p.path) h
      → (note_entry resting c t p (sighted h f)).1 ≡ true
      → (is_handled p f.handled ≡ false)
        × (c.stability_observations ≤ streak p ((t, p) ∷ h))
        × (c.stability ≤ t - streak_start t p ((t, p) ∷ h))
  unfolding note_entry streak streak_start
  note_entry-due t p h f new k due =
      let o = seen t p (find path_of p.path (sighted h f).observed) in
      let n =
        seen-Counts p.path t p h (find path_of p.path (sighted h f).observed) refl
          (sighted-Counts p.path h f new k) in
      let j = judge-due t (sighted h f).handled o due in
      ground (arith, n.1, n.2, n.3, j.0, j.1, j.2, same_print_self p, sighted-handled h f)
