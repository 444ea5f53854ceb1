-- ===== src/Sync/Roundtrip.antt =====
-- What `pull` makes of the frames that `push` writes.
use droid_web_display.Common.{
  ℕ, zero, suc, ◌+◌, ◌≤◌, ◌<◌, ◌≡◌, refl, ◌∙◌, ap, true, false, List, [], ◌∷◌, ◌++◌, length, take,
  drop, Result, ok, arith, le→leb, lt→ltb, length-take, length-drop, length-append,
  take-append-drop,
}
use droid_web_display.Sync.Wire.{
  SyncError, Link, read_exactly, little, cut, cut-append, unpack-little,
}
use droid_web_display.Sync.Client.{
  receive, SyncStat, exists, is_directory, pull, send_sync_request, frame, frames, sent_bytes,
  recv_word, done_word, chunk_size_of,
}

abbrev link : List ℕ → List ℕ → List ℕ → Link
link i o f = record { input = i; output = o; file = f }

append_assoc : (a b c : List ℕ) → (a ++ b) ++ c ≡ a ++ (b ++ c)
append_assoc [] b c = refl
append_assoc (x ∷ a) b c = cc (append_assoc a b c)

frames-append :
    (fuel size : ℕ) (content rest : List ℕ)
    → frames fuel size content [] ++ rest ≡ frames fuel size content rest
unfolding frames little
frames-append zero size content rest = refl
frames-append (suc fuel) size [] rest = refl
frames-append (suc fuel) size (x ∷ xs) rest = cc (
  frames-append fuel size (drop size (x ∷ xs)) rest,
  append_assoc (take size (x ∷ xs)) (frames fuel size (drop size (x ∷ xs)) []) rest,
)

-- One turn of the loop takes one frame.
receive-frame :
    (fuel total : ℕ) (chunk rest o f : List ℕ)
    → length chunk ≤ 65536
    → receive (suc fuel) total (link (frame chunk rest) o f)
      ≡ receive fuel (total + length chunk) (link rest o (f ++ chunk))
unfolding receive read_exactly little cut
receive-frame fuel total chunk rest o f h =
    rw
      (
        unpack-little (length chunk) (omega (arith, h)),
        le→leb (length chunk) 65536 h,
        cut-append chunk rest,
      )
      refl

append_nil : (f : List ℕ) → f ++ [] ≡ f
append_nil [] = refl
append_nil (x ∷ f) = cc (append_nil f)

receive-finished :
    (fuel total now : ℕ) (o f : List ℕ)
    → receive (suc fuel) total (link (done_word ++ little now) o f)
      ≡ (ok (total + 0), link [] o (f ++ []))
unfolding receive read_exactly little cut
receive-finished fuel total now o f = rw (append_nil f, plus_zero total) refl
  where
    plus_zero : (n : ℕ) → n + 0 ≡ n
    plus_zero n = omega arith

sum_of_parts :
    (size total : ℕ) (content : List ℕ)
    → (total + length (take size content)) + length (drop size content) ≡ total + length content
sum_of_parts size total content = omega (arith, length-take size content, length-drop size content)

parts_in_order :
    (size : ℕ) (f content : List ℕ) → (f ++ take size content) ++ drop size content ≡ f ++ content
parts_in_order size f content =
    append_assoc f (take size content) (drop size content)
    ∙ ap (λ c. f ++ c) (take-append-drop size content)

-- The frames of a content, taken one after the other.
receive-frames :
    (fuel g size total now : ℕ) (content o f : List ℕ)
    → 1 ≤ size
    → size ≤ 65536
    → length content ≤ fuel
    → length content < g
    → receive g total (link (frames fuel size content (done_word ++ little now)) o f)
      ≡ (ok (total + length content), link [] o (f ++ content))
unfolding frames
receive-frames fuel zero size total now content o f h k l m = ground arith
receive-frames zero (suc g) size total now [] o f h k l m = receive-finished g total now o f
receive-frames (suc fuel) (suc g) size total now [] o f h k l m = receive-finished g total now o f
receive-frames zero (suc g) size total now (x ∷ xs) o f h k l m = ground arith
receive-frames (suc fuel) (suc g) size total now (x ∷ xs) o f h k l m =
    receive-frame g total (take size (x ∷ xs))
      (frames fuel size (drop size (x ∷ xs)) (done_word ++ little now)) o f
      (omega (arith, length-take size (x ∷ xs), k))
    ∙ receive-frames fuel g size (total + length (take size (x ∷ xs))) now (drop size (x ∷ xs)) o
        (f ++ take size (x ∷ xs)) h k (omega (arith, length-drop size (x ∷ xs), h, l))
        (omega (arith, length-drop size (x ∷ xs), h, m))
    ∙ whole
  where
    whole :
        ◌≡◌ {A = Result SyncError ℕ × Link}
          (
            ok ((total + length (take size (x ∷ xs))) + length (drop size (x ∷ xs))),
            link [] o ((f ++ take size (x ∷ xs)) ++ drop size (x ∷ xs)),
          )
          (ok (total + length (x ∷ xs)), link [] o (f ++ (x ∷ xs)))
    whole = cc (sum_of_parts size total (x ∷ xs), parts_in_order size f (x ∷ xs))

length-frames :
    (fuel size : ℕ) (content rest : List ℕ)
    → 1 ≤ size
    → length content ≤ fuel
    → length content + length rest ≤ length (frames fuel size content rest)
unfolding frames little
length-frames zero size [] rest h l = omega arith
length-frames zero size (x ∷ xs) rest h l = omega (arith, l)
length-frames (suc fuel) size [] rest h l = omega arith
length-frames (suc fuel) size (x ∷ xs) rest h l = omega (
  arith,
  length-frames fuel size (drop size (x ∷ xs)) rest h
      (omega (arith, length-drop size (x ∷ xs), h, l)),
  length-append (take size (x ∷ xs)) (frames fuel size (drop size (x ∷ xs)) rest),
  length-take size (x ∷ xs),
  length-drop size (x ∷ xs),
)

zero_plus : (n : ℕ) → 0 + n ≡ n
zero_plus n = omega arith

-- The loop, from the fuel that `pull` gives it.
receive-sent_bytes :
    (size now : ℕ) (content i o : List ℕ)
    → 1 ≤ size
    → size ≤ 65536
    → i ≡ sent_bytes size content (little now)
    → receive (suc (length i)) 0 (link i o []) ≡ (ok (length content), link [] o content)
receive-sent_bytes size now content i o h k same =
    rw (same ∙ frames-append (length content) size content (done_word ++ little now)) (
      cc (
        zero_plus (length content),
        receive-frames (length content) (suc (length bytes)) size 0 now content o [] h k
            (omega arith)
            (omega (
              arith,
              length-frames (length content) size content (done_word ++ little now) h (omega arith),
            )),
      ))
  where
    bytes : List ℕ
    bytes = frames (length content) size content (done_word ++ little now)

-- Where the device sends back what a push wrote behind its request, in chunks of any size that a
-- client takes, the pull that awaits as many bytes returns their number and has the content in its
-- file.
pub pull-sent_bytes :
    (chunk_size now : ℕ) (path content : List ℕ) (found : SyncStat) (k : Link)
    → exists found ≡ true
    → is_directory found.mode ≡ false
    → found.size ≡ length content
    → length path < 4294967296
    → k.input ≡ sent_bytes (chunk_size_of chunk_size) content (little now)
    → ((pull path found k).0 ≡ ok (length content)) × ((pull path found k).1.file ≡ content)
unfolding pull send_sync_request
pull-sent_bytes chunk_size now path content found k real regular size short same =
    rw
      (
        real,
        regular,
        lt→ltb (length path) 4294967296 short,
        receive-sent_bytes (chunk_size_of chunk_size) now content k.input
            (k.output ++ (recv_word ++ (little (length path) ++ path))) (omega arith) (omega arith)
            same,
        size,
      )
      (ground arith)
