-- ===== src/Relay/Restarted.antt =====
-- A reader behind a prefix is a reader of the prefix and what follows.
use mathlib.Core.List.{append_assoc}
use droid_web_display.Common.{
  ℕ, zero, suc, ◌+◌, ◌-◌, ◌≤◌, min, true, false, ◌≡◌, refl, ap, ◌∙◌, inl, inr, List, [], ◌∷◌, ◌++◌,
  ◌==◌, Result, ok, err, length, take, drop, arith, length-append, length-take, length-drop,
  take-append-drop, Bool-cases,
}
use droid_web_display.Relay.Stream.{ReadError, Reader, IsStream}
use droid_web_display.Relay.Prefixed.{Prefixed, joined, read_prefix, read, read_all, at_eof}

no_length : (xs : List ℕ) → length xs ≡ 0 → xs ≡ []
no_length [] h = refl
no_length (x ∷ xs) h = ground (arith, h)

-- A prefix that is shorter than the size is used up.
pub spent : (n : ℕ) (p : List ℕ) → (min n (length p) == n) ≡ false → drop (min n (length p)) p ≡ []
spent n p h =
    no_length (drop (min n (length p)) p) (ground (arith, length-drop (min n (length p)) p, h))

module _ {S : Type 0} (inner : Reader S) (content : S → List ℕ)
    (stream : IsStream inner content) where
  -- The bytes that are still to come: the prefix, then those of the reader behind it.
  abbrev pub whole : Prefixed S → List ℕ
  whole s = s.prefix ++ content s.rest

  joined_ok :
      (chunk left a : List ℕ) (r : Result ReadError (List ℕ) × S)
      → left ≡ []
      → (joined inner chunk left r).0 ≡ ok a
      → (b : List ℕ) × (r.0 ≡ ok b)
        × (chunk ++ b ≡ a)
        × (whole (joined inner chunk left r).1 ≡ content r.1)
  joined_ok chunk left a (ok b, t) l h = (b, refl, ground (arith, h), ap (λ x. x ++ content t) l)
  joined_ok chunk left a (err e, t) l h = ground (arith, h)

  -- A read behind the last byte of the prefix.
  read_content_last :
      (n : ℕ) (chunk left a : List ℕ) (t : S)
      → left ≡ []
      → (joined inner chunk left (inner.read n t)).0 ≡ ok a
      → (a ++ whole (joined inner chunk left (inner.read n t)).1 ≡ chunk ++ content t)
        × (length a ≤ length chunk + n)
  read_content_last n chunk left a t l h =
      let (b, e, c, w) = joined_ok chunk left a (inner.read n t) l h in
      (
        cc (c, w, append_assoc chunk b (content (inner.read n t).1), stream.read_content n t b e),
        ground (arith, length-append chunk b, c, stream.read_bound n t b e),
      )

  read_prefix_content :
      (n : ℕ) (s : Prefixed S) (a : List ℕ)
      → (read_prefix inner n s).0 ≡ ok a
      → (a ++ whole (read_prefix inner n s).1 ≡ whole s) × (length a ≤ n)
  read_prefix_content n s a =
      let size = min n (length s.prefix) in
      elim (Bool-cases (size == n)) [
        | inl y ↦ rw (y) (λ h. (
          cc (
            h,
            take-append-drop size s.prefix,
            append_assoc (take size s.prefix) (drop size s.prefix) (content s.rest),
          ),
          ground (arith, h, length-take size s.prefix),
        ))
        | inr y ↦ rw (y) (λ h.
            let (c, l) =
              read_content_last (n - size) (take size s.prefix) (drop size s.prefix) a s.rest
                (spent n s.prefix y) h in
            (
              cc (
                c,
                take-append-drop size s.prefix,
                spent n s.prefix y,
                append_assoc (take size s.prefix) (drop size s.prefix) (content s.rest),
              ),
              omega (arith, l, length-take size s.prefix),
            ))
      ]

  abbrev pub at_prefix : List ℕ → S → Prefixed S
  at_prefix p t = record { prefix = p; rest = t }

  pub read_parts :
      (n : ℕ) (p : List ℕ) (t : S) (a : List ℕ)
      → (read inner n (at_prefix p t)).0 ≡ ok a
      → (a ++ whole (read inner n (at_prefix p t)).1 ≡ p ++ content t) × (length a ≤ n)
  unfolding read
  read_parts zero p t a h = (ground (arith, h), ground (arith, h))
  read_parts (suc n) (x ∷ p) t a h = read_prefix_content (suc n) (at_prefix (x ∷ p) t) a h
  read_parts (suc n) [] t a h =
      let (c, l) = read_content_last (suc n) [] [] a t refl h in (c, omega (arith, l))

  -- What stands in the prefix is returned at once.
  read_prefix_bound :
      (n : ℕ) (s : Prefixed S) (a : List ℕ)
      → (read_prefix inner n s).0 ≡ ok a
      → min n (length s.prefix) ≤ length a
  read_prefix_bound n s a =
      let size = min n (length s.prefix) in
      elim (Bool-cases (size == n)) [
        | inl y ↦ rw (y) (λ h. ground (arith, h, length-take size s.prefix))
        | inr y ↦ rw (y) (λ h.
            let (b, e, c, w) =
              joined_ok (take size s.prefix) (drop size s.prefix) a (inner.read (n - size) s.rest)
                (spent n s.prefix y) h in
            ground (arith, c, length-append (take size s.prefix) b, length-take size s.prefix))
      ]

  -- A read of a positive size that returns nothing has met the end.
  pub read_end_parts :
      (n : ℕ) (p : List ℕ) (t : S)
      → (read inner (suc n) (at_prefix p t)).0 ≡ ok []
      → p ++ content t ≡ []
  unfolding read
  read_end_parts n (x ∷ p) t h =
      ground (arith, read_prefix_bound (suc n) (at_prefix (x ∷ p) t) [] h)
  read_end_parts n [] t h =
      let (b, e, c, w) = joined_ok [] [] [] (inner.read (suc n) t) refl h in
      stream.read_end (suc n) t (omega arith) (e ∙ ap ok c)

  pub read_all_parts :
      (p : List ℕ) (t : S) (a : List ℕ)
      → (read_all inner (at_prefix p t)).0 ≡ ok a
      → (a ≡ p ++ content t) × (whole (read_all inner (at_prefix p t)).1 ≡ [])
  unfolding read_all
  read_all_parts p t a h =
      let (b, e, c, w) = joined_ok p [] a (inner.read_all t) refl h in
      let (d, f) = stream.read_all_content t b e in (cc (c, d), w ∙ f)

  pub at_eof_parts :
      (p : List ℕ) (t : S) → at_eof inner (at_prefix p t) ≡ true → p ++ content t ≡ []
  unfolding at_eof
  at_eof_parts [] t h = stream.at_eof_content t h
  at_eof_parts (x ∷ p) t h = ground (arith, h)
