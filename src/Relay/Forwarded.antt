-- ===== src/Relay/Forwarded.antt =====
-- What a control relay hands to the device.
use mathlib.Core.List.{append_assoc, append-nil}
use droid_web_display.Common.{
  ℕ, ◌+◌, ◌≤◌, Bool, true, false, ◌≡◌, refl, sym, ap, ◌∙◌, inl, inr, Option, none, some, List, [],
  ◌∷◌, ◌++◌, ltb, Result, ok, err, length, All, arith, length-append, Bool-cases,
}
use droid_web_display.Relay.Stream.{ReadError, connection_lost, incomplete, Reader}
use droid_web_display.Relay.Media.{Sending, sends, disconnects, fails}
use droid_web_display.Relay.Control.{
  Reason, browser_disconnected, non_binary_message, message_too_large, close, transport_error,
  Message, leaves, left, breaks, no_bytes, binary, Turn, device_reads, device_sends, browser_takes,
  device_drains, Pair, after_read, sent, forward, drained, browser_to_device, take_message,
  reads_if, sends_if, takes_if, drains_if, take_turn, relay_control,
}
use droid_web_display.Relay.Messages.{messages, joined, joined-append, All-append, undrained}

small_enough : (m n : ℕ) → ltb m n ≡ false → n ≤ m
small_enough m n h = ground (arith, h)

module _ {S : Type 0} (inner : Reader S) (chunk_size maximum : ℕ) where
  -- The first of the messages were written whole, and none of them is too large; where the relay
  -- goes on, the others are still to come. All their bytes are counted but those whose drain is
  -- awaited.
  pub record Forwarded (p : Pair S) (q : Option Reason × Pair S) : Type 0 where
    pub given : List (List ℕ)
    pub others : List (List ℕ)
    pub first_part : given ++ others ≡ messages p.inbox
    pub to_come : q.0 ≡ none → others ≡ messages q.1.inbox
    pub written : q.1.written ≡ p.written ++ joined given
    pub small : All (λ m. length m ≤ maximum) given
    pub counted :
        q.1.bytes_to_device + undrained q.1.draining
        ≡ p.bytes_to_device + undrained p.draining + length (joined given)

  -- Nothing is written.
  nothing-Forwarded :
      (p q : Pair S) (r : Option Reason)
      → (r ≡ none → messages p.inbox ≡ messages q.inbox)
      → q.written ≡ p.written
      → q.bytes_to_device + undrained q.draining ≡ p.bytes_to_device + undrained p.draining
      → Forwarded p (r, q)
  nothing-Forwarded p q r m w b = record {
    given = [];
    others = messages p.inbox;
    first_part = refl;
    to_come = m;
    written = w ∙ sym (append-nil p.written);
    small = tt;
    counted = omega (arith, b);
  }

  idle-Forwarded : (p : Pair S) (r : Option Reason) → Forwarded p (r, p)
  idle-Forwarded p r = nothing-Forwarded p p r (λ e. refl) refl refl

  -- What is forwarded in a part that goes on and in what follows it.
  then-Forwarded :
      (p q : Pair S) (next : Option Reason × Pair S)
      → Forwarded p (none, q)
      → Forwarded q next
      → Forwarded p next
  then-Forwarded p q next f g = record {
    given = f.given ++ g.given;
    others = g.others;
    first_part =
        append_assoc f.given g.given g.others
        ∙ (ap (λ x. f.given ++ x) (g.first_part ∙ sym (f.to_come refl)) ∙ f.first_part);
    to_come = g.to_come;
    written =
        g.written
        ∙ (ap (λ x. x ++ joined g.given) f.written
            ∙ (append_assoc p.written (joined f.given) (joined g.given)
                ∙ ap (λ x. p.written ++ x) (sym (joined-append f.given g.given))));
    small = All-append maximum f.given g.given f.small g.small;
    counted = omega (
      arith,
      f.counted,
      g.counted,
      length-append (joined f.given) (joined g.given),
      ap length (joined-append f.given g.given),
    );
  }

  after_read-Forwarded :
      (x : Result ReadError (List ℕ) × S) (p : Pair S)
      → Forwarded p (after_read inner chunk_size maximum x p)
  after_read-Forwarded (err connection_lost, s) p =
      nothing-Forwarded p (record p { source = s }) (some transport_error) (λ e. refl) refl refl
  after_read-Forwarded (err (incomplete part wanted), s) p =
      nothing-Forwarded p (record p { source = s }) _ (λ e. refl) refl refl
  after_read-Forwarded (ok [], s) p =
      nothing-Forwarded p (record p { source = s }) _ (λ e. refl) refl refl
  after_read-Forwarded (ok (b ∷ bytes), s) p =
      nothing-Forwarded p (record p { source = s; sending = some (b ∷ bytes) }) none (λ e. refl)
        refl refl

  sent-Forwarded :
      (bytes : List ℕ) (o : Sending) (p : Pair S)
      → Forwarded p (sent inner chunk_size maximum bytes o p)
  sent-Forwarded bytes sends p =
      nothing-Forwarded p (sent inner chunk_size maximum bytes sends p).1 none (λ e. refl) refl refl
  sent-Forwarded bytes disconnects p = idle-Forwarded p (some browser_disconnected)
  sent-Forwarded bytes fails p = idle-Forwarded p (some transport_error)

  drained-Forwarded :
      (bytes : List ℕ) (b : Bool) (p : Pair S)
      → p.draining ≡ some bytes
      → Forwarded p (drained inner chunk_size maximum bytes b p)
  drained-Forwarded bytes true p d =
      nothing-Forwarded p (drained inner chunk_size maximum bytes true p).1 none (λ e. refl) refl
        (omega (arith, ap undrained d))
  drained-Forwarded bytes false p d = idle-Forwarded p (some transport_error)

  forward-Forwarded :
      (bytes : List ℕ) (ms : List Message) (p : Pair S)
      → p.inbox ≡ binary bytes ∷ ms
      → p.draining ≡ none
      → length bytes ≤ maximum
      → Forwarded p (forward inner chunk_size maximum bytes (record p { inbox = ms }))
  forward-Forwarded bytes ms p m d l = record {
    given = bytes ∷ [];
    others = messages ms;
    first_part = sym (ap messages m);
    to_come = λ e. refl;
    written = ap (λ x. p.written ++ x) (sym (append-nil bytes));
    small = (l, tt);
    counted = omega (arith, ap undrained d, length-append bytes []);
  }

  -- A message that ends the relay.
  ended-Forwarded :
      (reason : Reason) (ms : List Message) (p : Pair S)
      → Forwarded p (some reason, record p { inbox = ms })
  ended-Forwarded reason ms p =
      nothing-Forwarded p (record p { inbox = ms }) (some reason) (λ e. cc) refl refl

  message-Forwarded :
      (m : Message) (ms : List Message) (p : Pair S)
      → p.inbox ≡ m ∷ ms
      → p.draining ≡ none
      → Forwarded p (browser_to_device inner chunk_size maximum m (record p { inbox = ms }))
  unfolding browser_to_device
  message-Forwarded leaves ms p i d = ended-Forwarded browser_disconnected ms p
  message-Forwarded left ms p i d = ended-Forwarded browser_disconnected ms p
  message-Forwarded breaks ms p i d = ended-Forwarded transport_error ms p
  message-Forwarded no_bytes ms p i d =
      nothing-Forwarded p (close inner chunk_size maximum 1003 (record p { inbox = ms }))
        (some non_binary_message) (λ e. cc) refl refl
  message-Forwarded (binary bytes) ms p i d = elim (Bool-cases (ltb maximum (length bytes))) [
    | inl y ↦ rw (y) (
        nothing-Forwarded p (close inner chunk_size maximum 1009 (record p { inbox = ms }))
          (some message_too_large) (λ e. cc) refl refl)
    | inr y ↦ rw (y) (forward-Forwarded bytes ms p i d (small_enough maximum (length bytes) y))
  ]

  take_message-Forwarded :
      (ms : List Message) (p : Pair S)
      → p.inbox ≡ ms
      → p.draining ≡ none
      → Forwarded p (take_message inner chunk_size maximum ms p)
  take_message-Forwarded [] p i d = idle-Forwarded p none
  take_message-Forwarded (m ∷ ms) p i d = message-Forwarded m ms p i d

  reads_if-Forwarded :
      (o : Option (List ℕ)) (p : Pair S) → Forwarded p (reads_if inner chunk_size maximum o p)
  reads_if-Forwarded none p = after_read-Forwarded (inner.read chunk_size p.source) p
  reads_if-Forwarded (some bytes) p = idle-Forwarded p none

  sends_if-Forwarded :
      (o : Option (List ℕ)) (how : Sending) (p : Pair S)
      → Forwarded p (sends_if inner chunk_size maximum o how p)
  sends_if-Forwarded none how p = idle-Forwarded p none
  sends_if-Forwarded (some bytes) how p = sent-Forwarded bytes how p

  takes_if-Forwarded :
      (o : Option (List ℕ)) (p : Pair S)
      → p.draining ≡ o
      → Forwarded p (takes_if inner chunk_size maximum o p)
  takes_if-Forwarded none p e = take_message-Forwarded p.inbox p refl e
  takes_if-Forwarded (some bytes) p e = idle-Forwarded p none

  drains_if-Forwarded :
      (o : Option (List ℕ)) (b : Bool) (p : Pair S)
      → p.draining ≡ o
      → Forwarded p (drains_if inner chunk_size maximum o b p)
  drains_if-Forwarded none b p e = idle-Forwarded p none
  drains_if-Forwarded (some bytes) b p e = drained-Forwarded bytes b p e

  take_turn-Forwarded :
      (t : Turn) (p : Pair S) → Forwarded p (take_turn inner chunk_size maximum t p)
  unfolding take_turn
  take_turn-Forwarded device_reads p = reads_if-Forwarded p.sending p
  take_turn-Forwarded (device_sends o) p = sends_if-Forwarded p.sending o p
  take_turn-Forwarded browser_takes p = takes_if-Forwarded p.draining p refl
  take_turn-Forwarded (device_drains b) p = drains_if-Forwarded p.draining b p refl

  follow-Forwarded :
      (p : Pair S) (x next : Option Reason × Pair S)
      → Forwarded p x
      → Forwarded x.1 next
      → Forwarded p (elim x.0 [ none ↦ next | some reason ↦ (some reason, x.1) ])
  follow-Forwarded p (none, q) next f g = then-Forwarded p q next f g
  follow-Forwarded p (some reason, q) next f g = f

  -- In whatever order the turns of its two tasks come, and wherever one of them meets the end of the
  -- other, a control relay writes to the device the first of the browser's binary messages, whole,
  -- unchanged and in their order, and none that is larger than the limit; while it goes on, the
  -- others are still to come. The channel counts the bytes of all of them but the one whose drain
  -- had not gone through.
  pub relay_control-Forwarded :
      (ts : List Turn) (p : Pair S) → Forwarded p (relay_control inner chunk_size maximum ts p)
  unfolding relay_control
  relay_control-Forwarded [] p = idle-Forwarded p none
  relay_control-Forwarded (t ∷ ts) p =
      let x = take_turn inner chunk_size maximum t p in
      follow-Forwarded p x (relay_control inner chunk_size maximum ts x.1) (take_turn-Forwarded t p)
        (relay_control-Forwarded ts x.1)
