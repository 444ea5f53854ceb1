-- ===== src/Monitor/Bounds.antt =====
-- How large the monitor's tables may become, and how long a retry waits.
use droid_web_display.Common.{
  ℕ, ◌≤◌, min, String, ◌&&◌, List, [], ◌∷◌, ◌≡◌, refl, inl, inr, str_eq, leb, ltb, count, length,
  keep, take, arith, All, if◌then◌else◌, Bool-cases, length-take,
}
use droid_web_display.Common.Table.{find}
use droid_web_display.Common.Sort.{sort, length-sort}
use droid_web_display.Common.Retain.{count-without-stale, find-without-stale}
use droid_web_display.Monitor.Types.{Watched, Handled, downloaded_from_android}
use droid_web_display.Monitor.Observe.{path_of}
use droid_web_display.Monitor.Trim.{
  max_settled, max_handled, settles, changed_before, keep_recent, trim_handled,
}

length-keep : (os : List Watched) → length (keep settles os) ≡ count settles os
length-keep [] = refl
length-keep (o ∷ os) = ground (arith, length-keep os)

-- At most 500 settled entries are kept, and an entry that is not settled is found as before (where
-- no settled one has its path).
pub keep_recent_lem :
    (os : List Watched)
    → (count settles (keep_recent os) ≤ max_settled)
      × ((path : String)
          → count (λ o. settles o && str_eq (path_of o) path) os ≡ 0
          → find path_of path (keep_recent os) ≡ find path_of path os)
unfolding keep_recent
keep_recent_lem os = elim (Bool-cases (leb (length (keep settles os)) max_settled)) [
  | inl few ↦ rw few (ground (arith, few, length-keep os), λ path h. refl)
  | inr many ↦ rw many (
    count-without-stale path_of settles changed_before max_settled os,
    λ path h. find-without-stale path_of settles changed_before max_settled path os h,
  )
]

none_settled :
    (os : List Watched)
    → All (λ o. o.status ≡ downloaded_from_android) os
    → length (keep settles os) ≡ 0
none_settled [] h = refl
none_settled (o ∷ os) h = ground (arith, h.0, none_settled os h.1)

-- A table of entries that downloads have left on the PC is not shortened, whatever its length.
pub keep_recent-downloaded :
    (os : List Watched) → All (λ o. o.status ≡ downloaded_from_android) os → keep_recent os ≡ os
unfolding keep_recent
keep_recent-downloaded os h = ground (arith, none_settled os h)

length-cut :
    (n : ℕ) (hs ss : List Handled)
    → length ss ≡ length hs
    → length (if ltb n (length hs) then take n ss else hs) ≡ min n (length hs)
length-cut n hs ss h = ground (arith, length-take n ss, h)

-- Of the handled fingerprints 5000 are kept, and all where there are no more.
pub length-trim_handled :
    (hs : List Handled) → length (trim_handled hs) ≡ min max_handled (length hs)
unfolding trim_handled
length-trim_handled hs =
    length-cut max_handled hs (sort (λ a b. leb b.since a.since) hs)
      (length-sort (λ a b. leb b.since a.since) hs)
