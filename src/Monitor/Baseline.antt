-- ===== src/Monitor/Baseline.antt =====
-- The first sweep over the device's folder, and the sweeps after it.
use mathlib.Core.Path.{subst}
use droid_web_display.Common.{
  sym, length, ℕ, suc, ◌+◌, ◌≤◌, true, ◌≡◌, refl, ◌∙◌, List, [], ◌∷◌, All, arith, ok,
}
use droid_web_display.Monitor.Types.{Print, Folder, Config, World, Outside, notify, Handled}
use droid_web_display.Monitor.Observe.{on_android, handle, is_handled, observe_android_entry}
use droid_web_display.Monitor.Scan.{
  baseline_entry, baseline_all, observe_android, sweep_android, wants_baseline, see, begun,
}
use droid_web_display.Monitor.Trim.{max_handled, trim_handled, trim_processed}
use droid_web_display.Monitor.Marks.{
  is_handled-handle_self, is_handled-handle_mono, observe_android_entry-handled,
  observe_android_entry-ok,
}

-- Every fingerprint is handled.
abbrev pub AllHandled : List Handled → List Print → Type 0
AllHandled hs ps = All (λ p. is_handled p hs ≡ true) ps

baseline_all_mono :
    (c : Config) (now : ℕ) (p : Print) (qs : List Print) (f : Folder)
    → is_handled p f.handled ≡ true
    → is_handled p (baseline_all c now qs f).handled ≡ true
unfolding baseline_all baseline_entry
baseline_all_mono c now p [] f h = h
baseline_all_mono c now p (q ∷ qs) f h =
    baseline_all_mono c now p qs (baseline_entry c now q f)
      (is_handled-handle_mono q p now f.handled h)

baseline_all-AllHandled :
    (c : Config) (now : ℕ) (ps : List Print) (f : Folder)
    → AllHandled (baseline_all c now ps f).handled ps
unfolding baseline_all baseline_entry
baseline_all-AllHandled c now [] f = tt
baseline_all-AllHandled c now (p ∷ ps) f = (
  baseline_all_mono c now p ps (baseline_entry c now p f) (is_handled-handle_self p now f.handled),
  baseline_all-AllHandled c now ps (baseline_entry c now p f),
)

observe_android-handled :
    (e : Outside) (ps : List Print) (w : World)
    → AllHandled w.memory.android.handled ps
    → (observe_android e ps w).1.transfers ≡ w.transfers
unfolding observe_android
observe_android-handled e [] w h = refl
observe_android-handled e (p ∷ ps) w h =
    let first = observe_android_entry-handled e p w h.0 in
    rw (observe_android_entry-ok e p w) (
      observe_android-handled e ps (observe_android_entry e p w).1
        (subst (λ hs. AllHandled hs ps) (sym first.1) h.1)
      ∙ first.0)

observe_android-ok :
    (e : Outside) (ps : List Print) (w : World) → (observe_android e ps w).0 ≡ ok tt
unfolding observe_android
observe_android-ok e [] w = refl
observe_android-ok e (p ∷ ps) w =
    rw (observe_android_entry-ok e p w) (observe_android-ok e ps (observe_android_entry e p w).1)

sweep_android-handled :
    (e : Outside) (ps : List Print) (w : World)
    → AllHandled w.memory.android.handled ps
    → (sweep_android e ps w).1.transfers ≡ w.transfers
unfolding sweep_android
sweep_android-handled e ps w h =
    let v = record w { memory = on_android begun (on_android (see (length ps)) w.memory) } in
    ground (arith, observe_android-ok e ps v, observe_android-handled e ps v h)

length-handle :
    (p : Print) (now : ℕ) (hs : List Handled) → length (handle p now hs) ≤ suc (length hs)
unfolding handle
length-handle p now [] = omega arith
length-handle p now (h ∷ hs) = ground (arith, length-handle p now hs)

length-baseline_all :
    (c : Config) (now : ℕ) (ps : List Print) (f : Folder)
    → length (baseline_all c now ps f).handled ≤ length f.handled + length ps
unfolding baseline_all baseline_entry
length-baseline_all c now [] f = omega arith
length-baseline_all c now (p ∷ ps) f =
    omega (
      arith,
      length-baseline_all c now ps (baseline_entry c now p f),
      length-handle p now f.handled,
    )

trim_handled_few : (hs : List Handled) → length hs ≤ max_handled → trim_handled hs ≡ hs
unfolding trim_handled
trim_handled_few hs h = ground (arith, h)

-- `_trim_processed`, which ends a scan.
abbrev pub trimmed : World → World
trimmed w = record w { memory = trim_processed w.memory }

first_sweep :
    (e : Outside) (ps : List Print) (w : World)
    → wants_baseline w.memory.config.include_existing w.memory.android ≡ true
    → ((sweep_android e ps w).1.transfers ≡ w.transfers)
      × AllHandled (sweep_android e ps w).1.memory.android.handled ps
      × (length (sweep_android e ps w).1.memory.android.handled
          ≤ length w.memory.android.handled + length ps)
unfolding sweep_android notify
first_sweep e ps w h =
    let f = see (length ps) w.memory.android in
    rw h (
      refl,
      baseline_all-AllHandled w.memory.config e.now ps f,
      length-baseline_all w.memory.config e.now ps f,
    )

-- Where the baseline is to be taken, two sweeps over the same files of the device, with the trim of
-- the tables between them that ends a scan, at any times and in any surroundings, queue nothing. The
-- handled fingerprints and the files are at most 5000 together, which the trim keeps.
pub sweep_android-baseline :
    (d e : Outside) (ps : List Print) (w : World)
    → wants_baseline w.memory.config.include_existing w.memory.android ≡ true
    → length w.memory.android.handled + length ps ≤ max_handled
    → (sweep_android e ps (trimmed (sweep_android d ps w).1)).1.transfers ≡ w.transfers
unfolding trim_processed
sweep_android-baseline d e ps w h few =
    let first = first_sweep d ps w h in
    let v = (sweep_android d ps w).1 in
    let same = trim_handled_few v.memory.android.handled (omega (arith, first.2, few)) in
    sweep_android-handled e ps (trimmed v) (subst (λ hs. AllHandled hs ps) (sym same) first.1)
    ∙ first.0
