-- ===== src/Scrcpy/Retention.antt =====
-- `_prune_terminated`: how many finished sessions stay, and which sessions it leaves alone.
use droid_web_display.Common.{
  ◌≤◌, String, Bool, ◌&&◌, List, [], ◌∷◌, ◌≡◌, refl, ◌∙◌, str_eq, eq_iff, leb, count, arith,
}
use droid_web_display.Common.Table.{find, discard}
use droid_web_display.Common.Retain.{without, stale, count-without-stale, find-without-stale}
use droid_web_display.Scrcpy.Session.{ScrcpySession}
use droid_web_display.Scrcpy.Manager.{
  id_of, discard_all, prune, is_finished, ended_at, max_retained,
}

-- Popping one key after another leaves what none of them names.
discard-eq-keep :
    (s : ScrcpySession) (ss xs : List ScrcpySession)
    → without id_of ss (discard id_of (id_of s) xs) ≡ without id_of (s ∷ ss) xs
unfolding discard
discard-eq-keep s ss [] = refl
discard-eq-keep s ss (x ∷ xs) =
    ground (arith, discard-eq-keep s ss xs, eq_iff (id_of x) (id_of s), eq_iff (id_of s) (id_of x))

discard_all-eq-without : (ss xs : List ScrcpySession) → discard_all ss xs ≡ without id_of ss xs
unfolding discard_all
discard_all-eq-without [] xs = all_kept xs
  where
    all_kept : (ys : List ScrcpySession) → ys ≡ without id_of [] ys
    all_kept [] = refl
    all_kept (y ∷ ys) = cc (all_kept ys)
discard_all-eq-without (s ∷ ss) xs =
    discard_all-eq-without ss (discard id_of (id_of s) xs) ∙ discard-eq-keep s ss xs

abbrev older : ScrcpySession → ScrcpySession → Bool
older a b = leb (ended_at a) (ended_at b)

prune-eq-without :
    (xs : List ScrcpySession)
    → prune xs ≡ without id_of (stale id_of is_finished older max_retained xs) xs
unfolding prune
prune-eq-without xs = discard_all-eq-without (stale id_of is_finished older max_retained xs) xs

-- Pruning leaves at most twenty finished sessions, and a session that is not finished is found
-- as before (where no finished one has its id).
pub prune_lem :
    (xs : List ScrcpySession)
    → (count is_finished (prune xs) ≤ max_retained)
      × ((id : String)
          → count (λ x. is_finished x && str_eq (id_of x) id) xs ≡ 0
          → find id_of id (prune xs) ≡ find id_of id xs)
prune_lem xs = (
  rw (prune-eq-without xs) (count-without-stale id_of is_finished older max_retained xs),
  (λ id none_so.
      rw (prune-eq-without xs)
        (find-without-stale id_of is_finished older max_retained id xs none_so)),
)
