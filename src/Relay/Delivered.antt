-- ===== src/Relay/Delivered.antt =====
-- What a media relay delivers.
use mathlib.Core.List.{append_assoc, append-nil}
use droid_web_display.Common.{
  ℕ, zero, suc, ◌+◌, ◌<◌, Bool, ◌≡◌, ◌≢◌, ◌⊎◌, refl, sym, ap, ◌∙◌, inl, inr, Option, none, some,
  List, [], ◌∷◌, ◌++◌, Result, ok, err, length, arith, length-append, not,
}
use droid_web_display.Relay.Stream.{ReadError, connection_lost, incomplete, Reader, IsStream}
use droid_web_display.Relay.Media.{
  Sending, sends, disconnects, fails, Ending, device_eof, browser_disconnected, transport_error,
  raised, Line, RelayResult, read_on, counted, payload, turn, pump, finished, relay_media_websocket,
}

module _ {S : Type 0} (inner : Reader S) (content : S → List ℕ) (stream : IsStream inner content)
    (chunk_size : ℕ) (positive : 0 < chunk_size) (sending : ℕ → Sending) where
  -- The loop has ended, and delivered and counted the first part of what there was, in its order;
  -- at the end of the device's stream this is all of it.
  abbrev pub Delivered : Line S → Option Ending × Line S → Type 0
  Delivered l (e, k) =
      (reason : Ending) × (given left : List ℕ) × (e ≡ some reason)
      × (k.received ≡ l.received ++ given)
      × (given ++ left ≡ content l.source)
      × (k.bytes_from_device ≡ l.bytes_from_device + length given)
      × (k.device_to_browser_bytes ≡ l.device_to_browser_bytes + length given)
      × ((reason ≢ device_eof) ⊎ (left ≡ []))

  -- An ending that delivers nothing more.
  stopped :
      (l : Line S) (s : S) (reason : Ending)
      → (reason ≢ device_eof) ⊎ (content l.source ≡ [])
      → Delivered l (some reason, read_on inner chunk_size sending s l)
  stopped l s reason all = (
    reason,
    [],
    content l.source,
    refl,
    sym (append-nil l.received),
    refl,
    omega arith,
    omega arith,
    all,
  )

  turn-Delivered :
      (r : Result ReadError (List ℕ)) (o : Sending) (l : Line S) (s : S)
      (next : Option Ending × Line S)
      → (r ≡ ok [] → content l.source ≡ [])
      → ((b : ℕ) (bytes : List ℕ) → r ≡ ok (b ∷ bytes) → Delivered l next)
      → Delivered l (turn inner chunk_size sending r o (read_on inner chunk_size sending s l) next)
  turn-Delivered (err connection_lost) o l s next e n =
      stopped l s transport_error (inl (λ h. ground (arith, h)))
  turn-Delivered (err (incomplete part wanted)) o l s next e n =
      stopped l s (raised (incomplete part wanted)) (inl (λ h. ground (arith, h)))
  turn-Delivered (ok []) o l s next e n = stopped l s device_eof (inr (e refl))
  turn-Delivered (ok (b ∷ bytes)) sends l s next e n = n b bytes refl
  turn-Delivered (ok (b ∷ bytes)) disconnects l s next e n =
      stopped l s browser_disconnected (inl (λ h. ground (arith, h)))
  turn-Delivered (ok (b ∷ bytes)) fails l s next e n =
      stopped l s transport_error (inl (λ h. ground (arith, h)))

  -- What is delivered behind the bytes of one turn.
  later :
      (bytes : List ℕ) (l : Line S) (s : S) (next : Option Ending × Line S)
      → bytes ++ content s ≡ content l.source
      → Delivered
          (counted inner chunk_size sending bytes (read_on inner chunk_size sending s l))
          next
      → Delivered l next
  later bytes l s (e, k) c (reason, given, left, a, b, d, f, g, h) = (
    reason,
    bytes ++ given,
    left,
    a,
    b ∙ append_assoc l.received bytes given,
    append_assoc bytes given left ∙ ap (λ x. bytes ++ x) d ∙ c,
    omega (arith, f, length-append bytes given),
    omega (arith, g, length-append bytes given),
    h,
  )

  pump-Delivered :
      (fuel : ℕ) (l : Line S)
      → length (content l.source) < fuel
      → Delivered l (pump inner chunk_size sending fuel l)
  unfolding pump
  pump-Delivered zero l h = absurd (omega (arith, h))
  pump-Delivered (suc fuel) l h =
      let q = inner.read chunk_size l.source in
      let k =
        counted inner chunk_size sending (payload inner chunk_size sending q.0)
          (read_on inner chunk_size sending q.1 l) in
      turn-Delivered q.0 (sending l.messages) l q.1 (pump inner chunk_size sending fuel k)
        (λ e. stream.read_end chunk_size l.source positive e)
        (λ b bytes e.
          let c = stream.read_content chunk_size l.source (b ∷ bytes) e in
          let same = ap (payload inner chunk_size sending) e in
          later (payload inner chunk_size sending q.0) l q.1 (pump inner chunk_size sending fuel k)
            (ap (λ x. x ++ content q.1) same ∙ c)
            (pump-Delivered fuel k
              (ground (arith, ap length c, length-append bytes (content q.1), h))))

  -- What a relay leaves: its result says how it ended, and counts the bytes that the browser
  -- has got, which are the first part of the bytes of the channel.
  pub record Relayed (has_left : Bool) (l : Line S) (q : Option RelayResult × Line S) : Type 0 where
    pub result : RelayResult
    pub given : List ℕ
    pub left : List ℕ
    pub returned : q.0 ≡ some result
    pub received : q.1.received ≡ l.received ++ given
    pub first_part : given ++ left ≡ content l.source
    pub channel_count : q.1.bytes_from_device ≡ l.bytes_from_device + length given
    pub result_count : result.device_to_browser_bytes ≡ length given
    pub closed : result.closed ≡ not has_left
    pub whole : (result.ending ≢ device_eof) ⊎ (left ≡ [])

  finished-Relayed :
      (has_left : Bool) (l : Line S) (r : Option Ending × Line S)
      → Delivered (record l { device_to_browser_bytes = 0 }) r
      → Relayed has_left l (finished inner chunk_size sending has_left r)
  finished-Relayed has_left l (none, k) (reason, given, left, a, b, c, d, e, f) = ground (arith, a)
  finished-Relayed has_left l (some ending, k) (reason, given, left, a, b, c, d, e, f) =
      let same : reason ≡ ending = ground (arith, a) in
      let result : RelayResult = record {
        device_to_browser_bytes = k.device_to_browser_bytes;
        browser_to_device_bytes = 0;
        ending = ending;
        closed = not has_left;
      } in
      record {
        result = result;
        given = given;
        left = left;
        returned = refl;
        received = b;
        first_part = c;
        channel_count = d;
        result_count = omega (arith, e);
        closed = refl;
        whole = elim f [ inl n ↦ inl (λ h. n (same ∙ h)) | inr all ↦ inr all ];
      }

  -- A media relay with more turns than there are bytes returns. The browser has then received the
  -- first bytes of the channel, unchanged and in their order, as many as both counters say, and the
  -- socket is closed unless the browser has left; where it ends with the device's end of file, the
  -- browser has received all of them. The reader keeps the laws of a stream, and the size of a
  -- chunk is positive.
  pub relay_media_websocket-Relayed :
      (fuel : ℕ) (has_left : Bool) (l : Line S)
      → length (content l.source) < fuel
      → Relayed has_left l (relay_media_websocket inner chunk_size sending fuel has_left l)
  unfolding relay_media_websocket
  relay_media_websocket-Relayed fuel has_left l h =
      let start = record l { device_to_browser_bytes = 0 } in
      finished-Relayed has_left l (pump inner chunk_size sending fuel start)
        (pump-Delivered fuel start h)
