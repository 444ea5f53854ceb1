-- ===== src/Relay/Media.antt =====
-- `relay_media_websocket` of droid_web_display/websocket/channels.py.
use droid_web_display.Common.{
  ℕ, zero, suc, ◌+◌, Bool, Option, none, some, List, [], ◌∷◌, ◌++◌, Result, ok, err, length, not,
}
use droid_web_display.Relay.Stream.{ReadError, connection_lost, incomplete, Reader}

-- What `send_bytes` does: it sends, or raises WebSocketDisconnect, or one of the two other
-- exceptions that are caught.
pub data Sending : Type 0 where
  sends disconnects fails : Sending

-- How the loop ends: with a reason to close, or with an exception that is not caught.
pub data Ending : Type 0 where
  device_eof browser_disconnected transport_error : Ending
  raised : ReadError → Ending

-- The reader of the channel, what the browser has received, the number of messages, and the two
-- counters of bytes.
pub record Line (S : Type 0) : Type 0 where
  pub source : S
  pub received : List ℕ
  pub messages : ℕ
  pub bytes_from_device : ℕ
  pub device_to_browser_bytes : ℕ

pub record RelayResult : Type 0 where
  pub device_to_browser_bytes : ℕ
  pub browser_to_device_bytes : ℕ
  pub ending : Ending
  pub closed : Bool

module _ {S : Type 0} (inner : Reader S) (chunk_size : ℕ) (sending : ℕ → Sending) where
  abbrev pub read_on : S → Line S → Line S
  read_on s l = record l { source = s }

  -- The bytes are sent and then counted.
  abbrev pub counted : List ℕ → Line S → Line S
  counted bytes l = record l {
    received = l.received ++ bytes;
    messages = suc l.messages;
    bytes_from_device = l.bytes_from_device + length bytes;
    device_to_browser_bytes = l.device_to_browser_bytes + length bytes;
  }

  abbrev pub payload : Result ReadError (List ℕ) → List ℕ
  payload (ok bytes) = bytes
  payload (err e) = []

  -- One turn, given what is read and what becomes of sending it, with what follows a turn that
  -- goes on.
  abbrev pub turn :
      Result ReadError (List ℕ) → Sending → Line S → Option Ending × Line S → Option Ending × Line S
  turn (err connection_lost) o l next = (some transport_error, l)
  turn (err (incomplete part wanted)) o l next = (some (raised (incomplete part wanted)), l)
  turn (ok []) o l next = (some device_eof, l)
  turn (ok (b ∷ bytes)) sends l next = next
  turn (ok (b ∷ bytes)) disconnects l next = (some browser_disconnected, l)
  turn (ok (b ∷ bytes)) fails l next = (some transport_error, l)

  -- The loop, of at most as many turns as the fuel.
  unfoldable pub pump : ℕ → Line S → Option Ending × Line S
  pump zero l = (none, l)
  pump (suc fuel) l =
      let (r, s) = inner.read chunk_size l.source in
      let next = pump fuel (counted (payload r) (read_on s l)) in
      turn r (sending l.messages) (read_on s l) next

  -- The socket is closed unless the browser has left.
  abbrev pub finished : Bool → Option Ending × Line S → Option RelayResult × Line S
  finished has_left (none, l) = (none, l)
  finished has_left (some e, l) = (
    some (record {
      device_to_browser_bytes = l.device_to_browser_bytes;
      browser_to_device_bytes = 0;
      ending = e;
      closed = not has_left;
    }),
    l,
  )

  -- From an accepted socket on.
  unfoldable pub relay_media_websocket : ℕ → Bool → Line S → Option RelayResult × Line S
  unfolding pump
  relay_media_websocket fuel has_left l =
      finished has_left (pump fuel (record l { device_to_browser_bytes = 0 }))
