-- ===== src/Relay/Exact.antt =====
-- `PrefixedStreamReader` keeps the laws of the reader that it wraps.
use mathlib.Core.List.{append_assoc}
use droid_web_display.Common.{
  ℕ, zero, suc, ◌+◌, ◌-◌, ◌<◌, min, ◌≡◌, refl, ap, inl, inr, List, [], ◌∷◌, ◌++◌, ◌==◌, Result, ok,
  err, length, take, drop, arith, length-append, length-take, take-append-drop, Bool-cases,
}
use droid_web_display.Relay.Stream.{ReadError, connection_lost, incomplete, Reader, IsStream}
use droid_web_display.Relay.Prefixed.{
  Prefixed, completed, readexactly_prefix, readexactly, prefixed_reader, read,
}
use droid_web_display.Relay.Restarted.{
  spent, whole, at_prefix, read_parts, read_end_parts, read_all_parts, at_eof_parts,
}

module _ {S : Type 0} (inner : Reader S) (content : S → List ℕ)
    (stream : IsStream inner content) where
  completed_ok :
      (chunk left a : List ℕ) (n : ℕ) (r : Result ReadError (List ℕ) × S)
      → left ≡ []
      → (completed inner chunk left n r).0 ≡ ok a
      → (b : List ℕ) × (r.0 ≡ ok b)
        × (chunk ++ b ≡ a)
        × (whole inner content stream (completed inner chunk left n r).1 ≡ content r.1)
  completed_ok chunk left a n (ok b, t) l h =
      (b, refl, ground (arith, h), ap (λ x. x ++ content t) l)
  completed_ok chunk left a n (err connection_lost, t) l h = ground (arith, h)
  completed_ok chunk left a n (err (incomplete part wanted), t) l h = ground (arith, h)

  completed_short :
      (chunk left part : List ℕ) (n wanted : ℕ) (r : Result ReadError (List ℕ) × S)
      → (completed inner chunk left n r).0 ≡ err (incomplete part wanted)
      → (q : List ℕ) × (v : ℕ) × (r.0 ≡ err (incomplete q v)) × (chunk ++ q ≡ part) × (wanted ≡ n)
  completed_short chunk left part n wanted (ok b, t) h = ground (arith, h)
  completed_short chunk left part n wanted (err connection_lost, t) h = ground (arith, h)
  completed_short chunk left part n wanted (err (incomplete q v), t) h =
      (q, v, refl, ground (arith, h), ground (arith, h))

  readexactly_last :
      (k n : ℕ) (chunk left a : List ℕ) (t : S)
      → left ≡ []
      → k + length chunk ≡ n
      → (completed inner chunk left n (inner.readexactly k t)).0 ≡ ok a
      → (length a ≡ n)
        × (a ++ whole inner content stream (completed inner chunk left n (inner.readexactly k t)).1
            ≡ chunk ++ content t)
  readexactly_last k n chunk left a t l m h =
      let (b, e, c, w) = completed_ok chunk left a n (inner.readexactly k t) l h in
      let (d, f) = stream.readexactly_content k t b e in
      (
        ground (arith, length-append chunk b, c, d, m),
        cc (c, w, f, append_assoc chunk b (content (inner.readexactly k t).1)),
      )

  short_last :
      (k n wanted : ℕ) (chunk left part : List ℕ) (t : S)
      → k + length chunk ≡ n
      → (completed inner chunk left n (inner.readexactly k t)).0 ≡ err (incomplete part wanted)
      → (part ≡ chunk ++ content t) × (wanted ≡ n) × (length part < n)
  short_last k n wanted chunk left part t m h =
      let (q, v, e, c, w) = completed_short chunk left part n wanted (inner.readexactly k t) h in
      let (d, _, f) = stream.readexactly_short k t q v e in
      (cc (c, d), w, ground (arith, length-append chunk q, c, f, m))

  readexactly_prefix-content :
      (n : ℕ) (s : Prefixed S) (a : List ℕ)
      → (readexactly_prefix inner n s).0 ≡ ok a
      → (length a ≡ n)
        × (a ++ whole inner content stream (readexactly_prefix inner n s).1
            ≡ whole inner content stream s)
  readexactly_prefix-content n s a =
      let size = min n (length s.prefix) in
      elim (Bool-cases (size == n)) [
        | inl y ↦ rw (y) (λ h. (
          ground (arith, h, y, length-take size s.prefix),
          cc (
            h,
            take-append-drop size s.prefix,
            append_assoc (take size s.prefix) (drop size s.prefix) (content s.rest),
          ),
        ))
        | inr y ↦ rw (y) (λ h.
            let (c, l) =
              readexactly_last (n - length (take size s.prefix)) n (take size s.prefix)
                (drop size s.prefix) a s.rest (spent n s.prefix y)
                (omega (arith, length-take size s.prefix)) h in
            (
              c,
              cc (
                l,
                take-append-drop size s.prefix,
                spent n s.prefix y,
                append_assoc (take size s.prefix) (drop size s.prefix) (content s.rest),
              ),
            ))
      ]

  short_prefix :
      (n wanted : ℕ) (s : Prefixed S) (part : List ℕ)
      → (readexactly_prefix inner n s).0 ≡ err (incomplete part wanted)
      → (part ≡ whole inner content stream s) × (wanted ≡ n) × (length part < n)
  short_prefix n wanted s part =
      let size = min n (length s.prefix) in
      elim (Bool-cases (size == n)) [
        | inl y ↦ rw (y) (λ h. ground (arith, h))
        | inr y ↦ rw (y) (λ h.
            let (c, w, l) =
              short_last (n - length (take size s.prefix)) n wanted (take size s.prefix)
                (drop size s.prefix) part s.rest (omega (arith, length-take size s.prefix)) h in
            (
              cc (
                c,
                take-append-drop size s.prefix,
                spent n s.prefix y,
                append_assoc (take size s.prefix) (drop size s.prefix) (content s.rest),
              ),
              w,
              l,
            ))
      ]

  exact_parts :
      (n : ℕ) (p : List ℕ) (t : S) (a : List ℕ)
      → (readexactly inner n (at_prefix inner content stream p t)).0 ≡ ok a
      → (length a ≡ n)
        × (a
              ++ whole inner content stream
                  (readexactly inner n (at_prefix inner content stream p t)).1
            ≡ p ++ content t)
  unfolding readexactly
  exact_parts zero p t a h = (ground (arith, h), ground (arith, h))
  exact_parts (suc n) (x ∷ p) t a h =
      readexactly_prefix-content (suc n) (at_prefix inner content stream (x ∷ p) t) a h
  exact_parts (suc n) [] t a h = readexactly_last (suc n) (suc n) [] [] a t refl (omega arith) h

  short_parts :
      (n : ℕ) (p : List ℕ) (t : S) (part : List ℕ) (wanted : ℕ)
      → (readexactly inner n (at_prefix inner content stream p t)).0 ≡ err (incomplete part wanted)
      → (part ≡ p ++ content t) × (wanted ≡ n) × (length part < n)
  unfolding readexactly
  short_parts zero p t part wanted h = ground (arith, h)
  short_parts (suc n) (x ∷ p) t part wanted h =
      short_prefix (suc n) wanted (at_prefix inner content stream (x ∷ p) t) part h
  short_parts (suc n) [] t part wanted h =
      short_last (suc n) (suc n) wanted [] [] part t (omega arith) h

  positive_end :
      (n : ℕ) (s : Prefixed S)
      → 0 < n
      → (read inner n s).0 ≡ ok []
      → whole inner content stream s ≡ []
  positive_end zero s l h = absurd (omega (arith, l))
  positive_end (suc n) s l h = read_end_parts inner content stream n s.prefix s.rest h

  -- A reader behind a prefix is itself a reader, of the prefix followed by what the reader behind
  -- it still has: no byte is lost, doubled or moved by any of its methods, and the exception of an
  -- incomplete read has all the bytes that there were and the size that was asked for.
  pub prefixed_reader-IsStream : IsStream (prefixed_reader inner) (whole inner content stream)
  prefixed_reader-IsStream = record {
    read_content = λ n s a h. (read_parts inner content stream n s.prefix s.rest a h).0;
    read_bound = λ n s a h. (read_parts inner content stream n s.prefix s.rest a h).1;
    read_end = positive_end;
    read_all_content = λ s a h. read_all_parts inner content stream s.prefix s.rest a h;
    readexactly_content = λ n s a h. exact_parts n s.prefix s.rest a h;
    readexactly_short = λ n s part wanted h. short_parts n s.prefix s.rest part wanted h;
    at_eof_content = λ s h. at_eof_parts inner content stream s.prefix s.rest h;
  }
