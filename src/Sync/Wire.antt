-- ===== src/Sync/Wire.antt =====
-- The bytes of the ADB sync protocol and the streams of a connection, as
-- droid_web_display/transfers/adb_sync.py reads and writes them.
use droid_web_display.Common.{
  ℕ, zero, suc, ◌+◌, ◌*◌, ◌/◌, ◌%◌, ◌<◌, ◌≡◌, refl, Bool, true, false, ◌&&◌, Option, none, some,
  List, [], ◌∷◌, ◌++◌, ◌==◌, ltb, if◌then◌else◌, length, Result, ok, err, Method, writes, arith,
}

-- What the client raises: an `AdbSyncError` by its text, or the `struct.error` of a number that
-- does not fit.
pub data SyncError : Type 0 where
  closed not_regular oversized size_mismatch invalid_length too_large : SyncError
  failed unexpected : List ℕ → SyncError

-- The bytes that are still to come before the peer closes or stalls, those that were written, and
-- the content of the local file that is open for writing.
pub record Link : Type 0 where
  pub input : List ℕ
  pub output : List ℕ
  pub file : List ℕ

abbrev pub Talk : Type 0 → Type 0
Talk A = Method SyncError Link A

abbrev pub Cut : Type 0
Cut = Option (List ℕ × List ℕ)

abbrev pub with_head : ℕ → Cut → Cut
with_head x none = none
with_head x (some (a, b)) = some (x ∷ a, b)

unfoldable pub cut : ℕ → List ℕ → Cut
cut zero xs = some ([], xs)
cut (suc n) [] = none
cut (suc n) (x ∷ xs) = with_head x (cut n xs)

abbrev pub take_cut : Cut → Talk (List ℕ)
take_cut none k = (err closed, k)
take_cut (some (a, b)) k = (ok a, record k { input = b })

-- `_read_exactly`
unfoldable pub read_exactly : ℕ → Talk (List ℕ)
read_exactly n k = take_cut (cut n k.input) k

-- `writer.write` and `_drain`
abbrev pub write : List ℕ → Talk (Unit {0})
write bytes = writes (λ k. record k { output = k.output ++ bytes })

-- `struct.pack("<I", n)` of a number below 2 ^ 32
unfoldable pub little : ℕ → List ℕ
little n = n % 256 ∷ n / 256 % 256 ∷ n / 65536 % 256 ∷ n / 16777216 % 256 ∷ []

abbrev pub pack : ℕ → Result SyncError (List ℕ)
pack n = if ltb n 4294967296 then ok (little n) else err too_large

-- `struct.unpack("<I", …)` of four bytes
unfoldable pub unpack : List ℕ → ℕ
unpack (a ∷ b ∷ c ∷ d ∷ rest) = a + 256 * b + 65536 * c + 16777216 * d
unpack _ = 0

abbrev pub same_bytes : List ℕ → List ℕ → Bool
same_bytes [] [] = true
same_bytes (a ∷ rest) (b ∷ others) = a == b && same_bytes rest others
same_bytes _ _ = false

pub cut-append : (d s : List ℕ) → cut (length d) (d ++ s) ≡ some (d, s)
unfolding cut
cut-append [] s = refl
cut-append (x ∷ d) s = rw (cut-append d s) refl

pub unpack-little : (n : ℕ) → n < 4294967296 → unpack (little n) ≡ n
unfolding unpack little
unpack-little n h = omega (arith, h)
