-- ===== src/Scrcpy/Tests.antt =====
-- Runs of the session manager, and the theorems at concrete situations.
use Prim.Native.Char.{Char}
use droid_web_display.Common.{
  List, ok, String, true, false, none, some, [], ◌∷◌, ◌≡◌, refl, arith, err, lookup, insert, erase,
  str_eq, eq_iff, count, ◌≤◌, ◌&&◌,
}
use droid_web_display.Common.Text.{chars}
use droid_web_display.Common.Table.{find, put, update, discard}
use droid_web_display.Common.Sort.{place, sort}
use droid_web_display.Common.Integers.{pos}
use droid_web_display.Scrcpy.Options.{SessionOptions, physical, validate}
use droid_web_display.Scrcpy.Command.{hex_digits, socket_name, build_server_arguments}
use droid_web_display.Scrcpy.Readback.{Understood}
use droid_web_display.Scrcpy.Arguments.{build_server_arguments-Understood}
use droid_web_display.Scrcpy.Session.{
  AndroidDevice, ScrcpySession, Manager, Draws, is_active, is_terminal, is_ending, running, stopped,
  session_conflict,
}
use droid_web_display.Scrcpy.Manager.{
  id_of, session_at, find_device, select_device, resolve_artifact, register, begin_start,
  start_succeeded, start_failed, discard_all, prune, retire, is_finished, max_retained, new_session,
}
use droid_web_display.Scrcpy.Control.{
  get_session, stop_begin, stop_end, final_state, stop_session, server_exited, monitor_round,
}
use droid_web_display.Scrcpy.Steps.{
  World, begins, halts, ends, Reach, here, next, fresh, IsExclusive, Anytime, Settled, mark,
}
use droid_web_display.Scrcpy.Exclusive.{Reach-IsExclusive}
use droid_web_display.Scrcpy.Retention.{prune_lem}
use droid_web_display.Scrcpy.Race.{overtaken}

abbrev phone : AndroidDevice
phone = record { serial = "R58"; state = "device"; manufacturer = none; sdk = some 33 }

abbrev options : SessionOptions
options = record {
  video = true;
  audio = false;
  control = true;
  audio_codec = "opus";
  audio_bit_rate = 128000;
  video_codec = "h264";
  max_size = pos 1920;
  video_bit_rate = 8000000;
  max_fps = 30;
  log_level = "info";
  cleanup = true;
  display_mode = physical;
  virtual_display = none;
}

abbrev draw : String → Draws
draw name = record { session_id = name; scid = 1; local_port = 5000 }

-- Naming `opened` opens everything that a step computes with.
opened : Manager
unfolding begin_start start_succeeded start_failed stop_begin stop_end get_session register retire
    prune discard_all select_device find_device resolve_artifact validate final_state is_active
    is_terminal is_ending find put update discard place sort lookup insert erase stop_session
    server_exited monitor_round
opened = (begin_start 1 (draw "a") none (phone ∷ []) none options (fresh (some "jar")).manager).1

-- The session "a" has begun, and a second start for the phone is refused meanwhile.
abbrev first_world : World
first_world = record (fresh (some "jar")) {
  manager = opened;
  launching = mark (λ id. false) "a" true;
}

first-Reach : Reach Settled (fresh (some "jar")) first_world
unfolding opened
first-Reach =
    next here (begins 1 (draw "a") none (phone ∷ []) none options "R58" refl refl refl refl refl)

conflict : (begin_start 2 (draw "b") none (phone ∷ []) none options opened).0 ≡ err session_conflict
unfolding opened
conflict = refl

Reach-IsExclusive_example : IsExclusive first_world
Reach-IsExclusive_example = Reach-IsExclusive (some "jar") first_world first-Reach

-- The session "a" is stopped while it still connects, and "b" begins.
abbrev stopped_manager : Manager
stopped_manager = (stop_end 3 "a" "R58" "requested" (stop_begin "a" "requested" opened).1).1

abbrev second_manager : Manager
second_manager = (begin_start 4 (draw "b") none (phone ∷ []) none options stopped_manager).1

abbrev second_world : World
second_world = record first_world {
  manager = second_manager;
  launching = mark (mark (λ id. false) "a" true) "b" true;
  halting = mark (mark (λ id. false) "a" true) "a" false;
}

second-Reach : Reach Anytime (fresh (some "jar")) second_world
unfolding opened
second-Reach =
    next
      (next
        (next
          (next here
            (begins 1 (draw "a") none (phone ∷ []) none options "R58" refl refl refl refl refl))
          (halts "a" "requested" tt refl))
        (ends 3 "a" "R58" "requested" refl))
      (begins 4 (draw "b") none (phone ∷ []) none options "R58" refl refl refl refl refl)

abbrev stopped_session : ScrcpySession
stopped_session = record (new_session 1 (draw "a") "R58" options) {
  state = stopped;
  stopped_at = some 3;
  stop_reason = some "requested";
}

overtaken_example :
    (x : World) × Reach Anytime (fresh (some "jar")) x
    × (session_at "a" x.manager
        ≡ some (record stopped_session { state = running; started_at = some 5 }))
    × ¬ IsExclusive x
unfolding opened
overtaken_example =
    overtaken (some "jar") second_world "a" "b" stopped_session
      (new_session 4 (draw "b") "R58" options) 5 second-Reach refl refl refl refl refl
      (ground (arith, eq_iff "a" "b"))

pruned_twice :
    (count is_finished (prune (stopped_session ∷ [])) ≤ max_retained)
    × ((id : String)
        → count (λ x. is_finished x && str_eq (id_of x) id) (stopped_session ∷ []) ≡ 0
        → find id_of id (prune (stopped_session ∷ [])) ≡ find id_of id (stopped_session ∷ []))
pruned_twice = prune_lem (stopped_session ∷ [])

-- The identifier 255 in eight digits.
named_socket : socket_name 255 ≡ ok (chars "scrcpy_000000ff")
unfolding socket_name hex_digits
named_socket = refl

options_valid : validate options ≡ ok tt
unfolding validate
options_valid = refl

build_server_arguments-Understood_example :
    (args : List (List Char)) × (build_server_arguments "4.1" 255 options ≡ ok (chars "4.1" ∷ args))
    × Understood (hex_digits 8 255) options none args
build_server_arguments-Understood_example =
    build_server_arguments-Understood "4.1" 255 options options_valid (omega arith)
