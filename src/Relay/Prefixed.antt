-- ===== src/Relay/Prefixed.antt =====
-- `PrefixedStreamReader` of droid_web_display/scrcpy/session.py.
use droid_web_display.Common.{
  ℕ, zero, suc, ◌-◌, min, Bool, true, false, List, [], ◌∷◌, ◌++◌, ◌==◌, if◌then◌else◌, Result, ok,
  err, length, take, drop,
}
use droid_web_display.Relay.Stream.{ReadError, connection_lost, incomplete, Reader}

-- The bytes that were read before, and the reader behind them.
pub record Prefixed (S : Type 0) : Type 0 where
  pub prefix : List ℕ
  pub rest : S

module _ {S : Type 0} (inner : Reader S) where
  -- The bytes taken from the prefix, then what the reader behind it returns.
  abbrev pub joined :
      List ℕ → List ℕ → Result ReadError (List ℕ) × S → Result ReadError (List ℕ) × Prefixed S
  joined chunk left (ok a, t) = (ok (chunk ++ a), record { prefix = left; rest = t })
  joined chunk left (err e, t) = (err e, record { prefix = left; rest = t })

  -- `read(n)` of a positive size, with a prefix
  abbrev pub read_prefix : ℕ → Prefixed S → Result ReadError (List ℕ) × Prefixed S
  read_prefix n s =
      let size = min n (length s.prefix) in
      let left = drop size s.prefix in
      if size == n
      then (ok (take size s.prefix), record { prefix = left; rest = s.rest })
      else joined (take size s.prefix) left (inner.read (n - size) s.rest)

  abbrev pub has_prefix : List ℕ → Bool
  has_prefix [] = false
  has_prefix (x ∷ xs) = true

  unfoldable pub read : ℕ → Prefixed S → Result ReadError (List ℕ) × Prefixed S
  read zero s = (ok [], s)
  read (suc n) s =
      if has_prefix s.prefix
      then read_prefix (suc n) s
      else joined [] s.prefix (inner.read (suc n) s.rest)

  unfoldable pub read_all : Prefixed S → Result ReadError (List ℕ) × Prefixed S
  read_all s = joined s.prefix [] (inner.read_all s.rest)

  -- The partial bytes of an IncompleteReadError get the prefix in front, and the size is the whole.
  abbrev pub completed :
      List ℕ → List ℕ → ℕ → Result ReadError (List ℕ) × S → Result ReadError (List ℕ) × Prefixed S
  completed chunk left n (ok a, t) = (ok (chunk ++ a), record { prefix = left; rest = t })
  completed chunk left n (err connection_lost, t) =
      (err connection_lost, record { prefix = left; rest = t })
  completed chunk left n (err (incomplete part wanted), t) =
      (err (incomplete (chunk ++ part) n), record { prefix = left; rest = t })

  abbrev pub readexactly_prefix : ℕ → Prefixed S → Result ReadError (List ℕ) × Prefixed S
  readexactly_prefix n s =
      let size = min n (length s.prefix) in
      let left = drop size s.prefix in
      if size == n
      then (ok (take size s.prefix), record { prefix = left; rest = s.rest })
      else completed (take size s.prefix) left n
          (inner.readexactly (n - length (take size s.prefix)) s.rest)

  unfoldable pub readexactly : ℕ → Prefixed S → Result ReadError (List ℕ) × Prefixed S
  readexactly zero s = (ok [], s)
  readexactly (suc n) s =
      if has_prefix s.prefix
      then readexactly_prefix (suc n) s
      else completed [] s.prefix (suc n) (inner.readexactly (suc n) s.rest)

  unfoldable pub at_eof : Prefixed S → Bool
  at_eof s = if has_prefix s.prefix then false else inner.at_eof s.rest

  -- The four methods together.
  abbrev pub prefixed_reader : Reader (Prefixed S)
  prefixed_reader = record {
    read = read;
    read_all = read_all;
    readexactly = readexactly;
    at_eof = at_eof;
  }
