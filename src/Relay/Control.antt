-- ===== src/Relay/Control.antt =====
-- `relay_control_websocket` of droid_web_display/websocket/channels.py: two tasks, whose turns come
-- in any order until one of them ends. A turn is what a task does up to its next await, so that the
-- end of the other task can meet it between a write and the count behind the drain. A close with a
-- code is one turn; the close of the socket at the end is left out.
use droid_web_display.Common.{
  ℕ, ◌+◌, Bool, true, false, Option, none, some, List, [], ◌∷◌, ◌++◌, ltb, Result, ok, err, length,
  if◌then◌else◌,
}
use droid_web_display.Relay.Stream.{ReadError, connection_lost, incomplete, Reader}
use droid_web_display.Relay.Media.{Sending, sends, disconnects, fails}

-- How a task ends, with the reason or with an exception that is not caught.
pub data Reason : Type 0 where
  device_eof browser_disconnected transport_error non_binary_message message_too_large : Reason
  raised : ReadError → Reason

-- What `receive` returns or raises.
pub data Message : Type 0 where
  leaves left breaks no_bytes : Message
  binary : List ℕ → Message

-- The turns of the task that reads from the device: its read, and the end of its send, with what
-- becomes of it. The turns of the task that reads from the browser: it takes the next message, and
-- the end of its drain, with whether that goes through.
pub data Turn : Type 0 where
  device_reads browser_takes : Turn
  device_sends : Sending → Turn
  device_drains : Bool → Turn

-- `inbox` is what the browser sends from now on. A task that awaits its send or its drain has the
-- bytes in `sending` or in `draining`; those of a send that a cancellation meets stay there, whether
-- or not the browser gets them.
pub record Pair (S : Type 0) : Type 0 where
  pub source : S
  pub inbox : List Message
  pub sending : Option (List ℕ)
  pub draining : Option (List ℕ)
  pub received : List ℕ
  pub written : List ℕ
  pub bytes_from_device : ℕ
  pub bytes_to_device : ℕ
  pub close_codes : List ℕ

module _ {S : Type 0} (inner : Reader S) (chunk_size maximum : ℕ) where
  abbrev pub sent : List ℕ → Sending → Pair S → Option Reason × Pair S
  sent bytes sends p = (
    none,
    record p {
      received = p.received ++ bytes;
      bytes_from_device = p.bytes_from_device + length bytes;
      sending = none;
    },
  )
  sent bytes disconnects p = (some browser_disconnected, p)
  sent bytes fails p = (some transport_error, p)

  abbrev pub after_read : Result ReadError (List ℕ) × S → Pair S → Option Reason × Pair S
  after_read (err connection_lost, s) p = (some transport_error, record p { source = s })
  after_read (err (incomplete part wanted), s) p =
      (some (raised (incomplete part wanted)), record p { source = s })
  after_read (ok [], s) p = (some device_eof, record p { source = s })
  after_read (ok (b ∷ bytes), s) p = (none, record p { source = s; sending = some (b ∷ bytes) })

  abbrev pub close : ℕ → Pair S → Pair S
  close code p = record p { close_codes = p.close_codes ++ code ∷ [] }

  -- The bytes are written, and their drain is awaited.
  abbrev pub forward : List ℕ → Pair S → Option Reason × Pair S
  forward bytes p = (none, record p { written = p.written ++ bytes; draining = some bytes })

  -- What follows the drain.
  abbrev pub drained : List ℕ → Bool → Pair S → Option Reason × Pair S
  drained bytes true p =
      (none, record p { bytes_to_device = p.bytes_to_device + length bytes; draining = none })
  drained bytes false p = (some transport_error, p)

  unfoldable pub browser_to_device : Message → Pair S → Option Reason × Pair S
  browser_to_device leaves p = (some browser_disconnected, p)
  browser_to_device left p = (some browser_disconnected, p)
  browser_to_device breaks p = (some transport_error, p)
  browser_to_device no_bytes p = (some non_binary_message, close 1003 p)
  browser_to_device (binary bytes) p =
      if ltb maximum (length bytes) then (some message_too_large, close 1009 p) else forward bytes p

  abbrev pub take_message : List Message → Pair S → Option Reason × Pair S
  take_message [] p = (none, p)
  take_message (m ∷ ms) p = browser_to_device m (record p { inbox = ms })

  -- The turns, by what their task awaits. One that its task does not stand before changes nothing.
  abbrev pub reads_if : Option (List ℕ) → Pair S → Option Reason × Pair S
  reads_if none p = after_read (inner.read chunk_size p.source) p
  reads_if (some bytes) p = (none, p)

  abbrev pub sends_if : Option (List ℕ) → Sending → Pair S → Option Reason × Pair S
  sends_if none o p = (none, p)
  sends_if (some bytes) o p = sent bytes o p

  abbrev pub takes_if : Option (List ℕ) → Pair S → Option Reason × Pair S
  takes_if none p = take_message p.inbox p
  takes_if (some bytes) p = (none, p)

  abbrev pub drains_if : Option (List ℕ) → Bool → Pair S → Option Reason × Pair S
  drains_if none goes_through p = (none, p)
  drains_if (some bytes) goes_through p = drained bytes goes_through p

  unfoldable pub take_turn : Turn → Pair S → Option Reason × Pair S
  unfolding browser_to_device
  take_turn device_reads p = reads_if p.sending p
  take_turn (device_sends o) p = sends_if p.sending o p
  take_turn browser_takes p = takes_if p.draining p
  take_turn (device_drains goes_through) p = drains_if p.draining goes_through p

  -- Both tasks, by the order of their turns. The first to end cancels the other.
  unfoldable pub relay_control : List Turn → Pair S → Option Reason × Pair S
  unfolding take_turn
  relay_control [] p = (none, p)
  relay_control (t ∷ ts) p =
      let (r, q) = take_turn t p in
      let next = relay_control ts q in elim r [ none ↦ next | some reason ↦ (some reason, q) ]
