-- ===== src/Relay/Tests.antt =====
-- Relays of a few bytes.
use droid_web_display.Common.{
  ℕ, zero, suc, ◌<◌, Bool, true, false, ◌≡◌, refl, List, [], ◌∷◌, ◌++◌, ltb, if◌then◌else◌, ok, err,
  length, take, drop, arith, take-append-drop, length-take, inl, inr, Bool-cases, none,
}
use droid_web_display.Relay.Stream.{incomplete, Reader, IsStream}
use droid_web_display.Relay.Prefixed.{Prefixed, prefixed_reader, read}
use droid_web_display.Relay.Restarted.{whole}
use droid_web_display.Relay.Exact.{prefixed_reader-IsStream}
use droid_web_display.Relay.Media.{Sending, sends, disconnects, Line, relay_media_websocket, pump}
use droid_web_display.Relay.Control.{
  binary, device_reads, device_sends, device_drains, browser_takes, Turn, Pair, relay_control,
  take_turn, browser_to_device,
}
use droid_web_display.Relay.Forwarded.{Forwarded, relay_control-Forwarded}
use droid_web_display.Relay.Delivered.{relay_media_websocket-Relayed, Relayed}

abbrev is_none_left : List ℕ → Bool
is_none_left [] = true
is_none_left (x ∷ xs) = false

-- A reader of bytes that have all arrived.
abbrev arrived : Reader (List ℕ)
arrived = record {
  read = λ n s. (ok (take n s), drop n s);
  read_all = λ s. (ok s, []);
  readexactly =
      λ n s. if ltb (length s) n then (err (incomplete s n), []) else (ok (take n s), drop n s);
  at_eof = is_none_left;
}

arrived_exact :
    (n : ℕ) (s a : List ℕ)
    → (arrived.readexactly n s).0 ≡ ok a
    → (length a ≡ n) × (a ++ (arrived.readexactly n s).1 ≡ s)
arrived_exact n s a = elim (Bool-cases (ltb (length s) n)) [
  | inl y ↦ rw (y) (λ h. ground (arith, h))
  | inr y ↦ rw (y) (λ h. (ground (arith, h, y, length-take n s), cc (h, take-append-drop n s)))
]

arrived_short :
    (n : ℕ) (s part : List ℕ) (wanted : ℕ)
    → (arrived.readexactly n s).0 ≡ err (incomplete part wanted)
    → (part ≡ s) × (wanted ≡ n) × (length part < n)
arrived_short n s part wanted = elim (Bool-cases (ltb (length s) n)) [
  | inl y ↦ rw (y) (λ h. (ground (arith, h), ground (arith, h), ground (arith, h, y)))
  | inr y ↦ rw (y) (λ h. ground (arith, h))
]

arrived_end : (n : ℕ) (s : List ℕ) → 0 < n → (arrived.read n s).0 ≡ ok [] → s ≡ []
arrived_end zero s l h = absurd (omega (arith, l))
arrived_end (suc n) [] l h = refl
arrived_end (suc n) (x ∷ xs) l h = ground (arith, h)

arrived_eof : (s : List ℕ) → is_none_left s ≡ true → s ≡ []
arrived_eof [] h = refl
arrived_eof (x ∷ xs) h = ground (arith, h)

arrived-IsStream : IsStream arrived (λ s. s)
arrived-IsStream = record {
  read_content = λ n s a h. cc (h, take-append-drop n s);
  read_bound = λ n s a h. ground (arith, h, length-take n s);
  read_end = arrived_end;
  read_all_content = λ s a h. (ground (arith, h), refl);
  readexactly_content = arrived_exact;
  readexactly_short = arrived_short;
  at_eof_content = arrived_eof;
}

-- The first byte was read before, and the others arrive behind it.
abbrev channel : Prefixed (List ℕ)
channel = record { prefix = 7 ∷ []; rest = 8 ∷ 9 ∷ 10 ∷ [] }

across : (read arrived 3 channel).0 ≡ ok (7 ∷ 8 ∷ 9 ∷ [])
unfolding read
across = refl

prefixed_reader-IsStream_example :
    IsStream (prefixed_reader arrived) (whole arrived (λ s. s) arrived-IsStream)
prefixed_reader-IsStream_example = prefixed_reader-IsStream arrived (λ s. s) arrived-IsStream

abbrev line : Line (List ℕ)
line = record {
  source = 8 ∷ 9 ∷ 10 ∷ [];
  received = 7 ∷ [];
  messages = 0;
  bytes_from_device = 1;
  device_to_browser_bytes = 0;
}

-- The browser leaves at the second message.
abbrev leaving : ℕ → Sending
leaving zero = sends
leaving (suc n) = disconnects

left_early : (relay_media_websocket arrived 2 leaving 9 true line).1.received ≡ 7 ∷ 8 ∷ 9 ∷ []
unfolding relay_media_websocket pump
left_early = refl

relay_media_websocket-Relayed_example :
    Relayed arrived
      (λ s. s)
      arrived-IsStream
      2
      (omega arith)
      leaving
      true
      line
      (relay_media_websocket arrived 2 leaving 4 true line)
relay_media_websocket-Relayed_example =
    relay_media_websocket-Relayed arrived (λ s. s) arrived-IsStream 2 (omega arith) leaving 4 true
      line (omega arith)

-- The second message of the browser is larger than two bytes.
abbrev pair : Pair (List ℕ)
pair = record {
  source = 8 ∷ 9 ∷ [];
  inbox = binary (1 ∷ 2 ∷ []) ∷ binary (3 ∷ 4 ∷ 5 ∷ []) ∷ [];
  sending = none;
  draining = none;
  received = [];
  written = [];
  bytes_from_device = 0;
  bytes_to_device = 0;
  close_codes = [];
}

abbrev turns : List Turn
turns = browser_takes ∷ device_reads ∷ device_drains true ∷ device_sends sends ∷ browser_takes ∷ []

cut_short : (relay_control arrived 9 2 turns pair).1.written ≡ 1 ∷ 2 ∷ []
unfolding relay_control take_turn browser_to_device
cut_short = refl

-- The device ends while a drain is awaited: the bytes are written and not counted.
uncounted :
    (relay_control arrived 9 2
      (browser_takes ∷ device_reads ∷ device_sends sends ∷ device_reads ∷ device_drains true ∷ [])
      pair).1.bytes_to_device
    ≡ 0
unfolding relay_control take_turn browser_to_device
uncounted = refl

relay_control-Forwarded_example : Forwarded arrived 9 2 pair (relay_control arrived 9 2 turns pair)
relay_control-Forwarded_example = relay_control-Forwarded arrived 9 2 turns pair
