-- ===== src/Monitor/Marks.antt =====
-- Handled fingerprints: what has been marked is found, and nothing is queued for it.
use droid_web_display.Common.{
  ℕ, Bool, true, false, ◌≡◌, refl, List, [], ◌∷◌, eq_iff, arith, if◌then◌else◌, Option, ok,
}
use droid_web_display.Common.Table.{find}
use droid_web_display.Monitor.Types.{
  Print, same_print, FileStatus, Watched, Handled, Folder, Config, World, Outside, LocalFile,
}
use droid_web_display.Monitor.Observe.{
  path_of, is_handled, handle, judge, note_entry, seen, observe_android_entry, observe_pc_entry,
  finish_download, finish_upload, rests_android, rests_pc, local_print,
}

pub same_print-eq : (a b : Print) → same_print a b ≡ true → a ≡ b
same_print-eq a b h = ground (arith, eq_iff a.path b.path)

pub same_print_self : (a : Print) → same_print a a ≡ true
same_print_self a = ground (arith, eq_iff a.path a.path)

pub is_handled-handle :
    (p q : Print) (now : ℕ) (hs : List Handled)
    → is_handled q (handle p now hs) ≡ (if same_print p q then true else is_handled q hs)
unfolding is_handled handle
is_handled-handle p q now [] = refl
is_handled-handle p q now (h ∷ hs) = ground (
  arith,
  is_handled-handle p q now hs,
  eq_iff h.mark.path p.path,
  eq_iff p.path q.path,
  eq_iff h.mark.path q.path,
)

pub is_handled-handle_self :
    (p : Print) (now : ℕ) (hs : List Handled) → is_handled p (handle p now hs) ≡ true
is_handled-handle_self p now hs = ground (arith, is_handled-handle p p now hs, same_print_self p)

-- What is handled stays so.
pub is_handled-handle_mono :
    (p q : Print) (now : ℕ) (hs : List Handled)
    → is_handled q hs ≡ true
    → is_handled q (handle p now hs) ≡ true
is_handled-handle_mono p q now hs h = ground (arith, is_handled-handle p q now hs)

seen-fingerprint : (now : ℕ) (p : Print) (o : Option Watched) → (seen now p o).fingerprint ≡ p
unfolding seen
seen-fingerprint now p Option.none = refl
seen-fingerprint now p (Option.some o) = ground (arith, same_print-eq o.fingerprint p)

-- An observation of a handled file queues nothing.
pub note_entry-handled :
    (resting : FileStatus → Bool) (c : Config) (now : ℕ) (p : Print) (f : Folder)
    → is_handled p f.handled ≡ true
    → ((note_entry resting c now p f).1 ≡ false)
      × ((note_entry resting c now p f).0.handled ≡ f.handled)
unfolding note_entry judge
note_entry-handled resting c now p f h =
    ground (arith, seen-fingerprint now p (find path_of p.path f.observed))

pub observe_android_entry-handled :
    (e : Outside) (p : Print) (w : World)
    → is_handled p w.memory.android.handled ≡ true
    → ((observe_android_entry e p w).1.transfers ≡ w.transfers)
      × ((observe_android_entry e p w).1.memory.android.handled ≡ w.memory.android.handled)
      × ((observe_android_entry e p w).1.memory.config ≡ w.memory.config)
unfolding observe_android_entry
observe_android_entry-handled e p w h =
    ground (arith, note_entry-handled rests_android w.memory.config e.now p w.memory.android h)

pub observe_pc_entry-handled :
    (e : Outside) (l : LocalFile) (w : World)
    → is_handled (local_print l) w.memory.pc.handled ≡ true
    → (observe_pc_entry e l w).1.transfers ≡ w.transfers
unfolding observe_pc_entry
observe_pc_entry-handled e l w h =
    ground (arith, note_entry-handled rests_pc w.memory.config e.now (local_print l) w.memory.pc h)

-- An observation never raises.
pub observe_android_entry-ok :
    (e : Outside) (p : Print) (w : World) → (observe_android_entry e p w).0 ≡ ok tt
unfolding observe_android_entry finish_download
observe_android_entry-ok e p w = ground arith

pub observe_pc_entry-ok :
    (e : Outside) (l : LocalFile) (w : World) → (observe_pc_entry e l w).0 ≡ ok tt
unfolding observe_pc_entry finish_upload
observe_pc_entry-ok e l w = ground arith
