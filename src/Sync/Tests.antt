-- ===== src/Sync/Tests.antt =====
-- The sync client at concrete bytes.
use droid_web_display.Common.{ℕ, ltb, if◌then◌else◌, ◌≡◌, refl, List, [], ◌∷◌, ok, arith}
use droid_web_display.Sync.Wire.{Link, little}
use droid_web_display.Sync.Client.{
  SyncEntry, list_directory, SyncStat, sent_bytes, chunk_size_of, pull,
}
use droid_web_display.Sync.Listing.{listing, entries, list_directory-listing}
use droid_web_display.Sync.Roundtrip.{pull-sent_bytes}

abbrev content : List ℕ
content = 7 ∷ 8 ∷ 9 ∷ []

abbrev answering : Link
answering = record {
  input = sent_bytes (chunk_size_of 4096) content (little 1000);
  output = [];
  file = [];
}

abbrev regular_file : SyncStat
regular_file = record { mode = 0o100664; size = 3; modified_at = 5 }

pull-sent_bytes_example :
    ((pull (b'a' ∷ []) regular_file answering).0 ≡ ok 3)
    × ((pull (b'a' ∷ []) regular_file answering).1.file ≡ content)
pull-sent_bytes_example =
    pull-sent_bytes 4096 1000 (b'a' ∷ []) content regular_file answering refl refl refl
      (omega arith) refl

abbrev here : SyncEntry
here = record { name = b'.' ∷ []; mode = 0o040771; size = 0; modified_at = 3 }

abbrev note_file : SyncEntry
note_file = record { name = b'n' ∷ b'o' ∷ []; mode = 0o100664; size = 70000; modified_at = 9 }

-- A name that is not UTF-8.
abbrev broken_file : SyncEntry
broken_file = record note_file { name = b'n' ∷ 255 ∷ [] }

-- Bytes that are not ASCII become U+FFFD.
replaced : List ℕ → List ℕ
replaced [] = []
replaced (b ∷ bs) =
    let rest = replaced bs in if ltb b 128 then b ∷ rest else 0xef ∷ 0xbf ∷ 0xbd ∷ rest

abbrev listed : Link
listed = record { input = listing (here ∷ note_file ∷ broken_file ∷ []); output = []; file = [] }

list_directory-listing_example :
    (list_directory replaced (b'/' ∷ []) listed).0
    ≡ ok (entries replaced (here ∷ note_file ∷ broken_file ∷ []))
list_directory-listing_example =
    list_directory-listing replaced (b'/' ∷ []) (here ∷ note_file ∷ broken_file ∷ []) listed
      (omega arith)
      (
        (omega arith, omega arith, omega arith, omega arith),
        (
          (omega arith, omega arith, omega arith, omega arith),
          ((omega arith, omega arith, omega arith, omega arith), tt),
        ),
      )
      refl
