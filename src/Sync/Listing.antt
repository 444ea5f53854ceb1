-- ===== src/Sync/Listing.antt =====
-- What `list` makes of a listing in the format of the protocol.
use droid_web_display.Common.{
  ℕ, zero, suc, ◌≤◌, ◌<◌, ◌≡◌, refl, not, List, [], ◌∷◌, ◌++◌, keep, map, length, All, ok, arith,
  lt→ltb, length-append,
}
use droid_web_display.Sync.Wire.{Link, read_exactly, little, unpack, cut, cut-append, unpack-little}
use droid_web_display.Sync.Client.{
  SyncEntry, read_entries, dent_word, done_word, list_word, is_dots, list_directory,
  send_sync_request,
}

-- The `DENT` answers of some entries and the `DONE` that ends them, with its sixteen bytes.
unfoldable pub listing : List SyncEntry → List ℕ
listing [] = done_word ++ (little 0 ++ (little 0 ++ (little 0 ++ little 0)))
listing (e ∷ es) =
    dent_word
    ++ (little e.mode
        ++ (little e.size
            ++ (little e.modified_at ++ (little (length e.name) ++ (e.name ++ listing es)))))

abbrev pub word_limit : ℕ
word_limit = 4294967296

-- The numbers of an entry fit their fields.
abbrev pub IsFitting : SyncEntry → Type 0
IsFitting e =
    (e.mode < word_limit)
    × (e.size < word_limit)
    × (e.modified_at < word_limit)
    × (length e.name < word_limit)

-- What becomes of the entries of a listing: the names are decoded, and `.` and `..` are left out.
abbrev pub decoded : (List ℕ → List ℕ) → SyncEntry → SyncEntry
decoded decode e = record e { name = decode e.name }

abbrev pub entries : (List ℕ → List ℕ) → List SyncEntry → List SyncEntry
entries decode es = keep (λ e. not (is_dots e.name)) (map (decoded decode) es)

read_entries-listing :
    (decode : List ℕ → List ℕ) (fuel : ℕ) (es : List SyncEntry) (o f : List ℕ)
    → length es < fuel
    → All IsFitting es
    → read_entries decode fuel (record { input = listing es; output = o; file = f })
      ≡ (ok (entries decode es), record { input = []; output = o; file = f })
unfolding read_entries listing read_exactly little cut unpack
read_entries-listing decode zero es o f h fit = ground arith
read_entries-listing decode (suc fuel) [] o f h fit = refl
read_entries-listing decode (suc fuel) (e ∷ es) o f h fit =
    rw
      (
        unpack-little (length e.name) fit.0.3,
        unpack-little e.mode fit.0.0,
        unpack-little e.size fit.0.1,
        unpack-little e.modified_at fit.0.2,
        cut-append e.name (listing es),
        read_entries-listing decode fuel es o f (omega (arith, h)) fit.1,
      )
      (ground arith)

length-listing : (es : List SyncEntry) → length es ≤ length (listing es)
unfolding listing little
length-listing [] = omega arith
length-listing (e ∷ es) = omega (arith, length-listing es, length-append e.name (listing es))

-- Where the device answers with a listing of entries whose numbers fit their fields, for a path
-- whose length does, `list` returns the entries with
-- their names decoded, in order, but those that are then `.` and `..` themselves.
pub list_directory-listing :
    (decode : List ℕ → List ℕ) (path : List ℕ) (es : List SyncEntry) (k : Link)
    → length path < word_limit
    → All IsFitting es
    → k.input ≡ listing es
    → (list_directory decode path k).0 ≡ ok (entries decode es)
unfolding list_directory send_sync_request
list_directory-listing decode path es k short fit same =
    rw
      (
        lt→ltb (length path) word_limit short,
        same,
        read_entries-listing decode (suc (length (listing es))) es
            (k.output ++ (list_word ++ (little (length path) ++ path))) k.file
            (omega (arith, length-listing es)) fit,
      )
      refl
