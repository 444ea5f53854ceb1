-- ===== src/Relay/Stream.antt =====
-- What the relays ask of a reader of bytes: the methods of `asyncio.StreamReader` and their laws.
use droid_web_display.Common.{ℕ, ◌<◌, ◌≤◌, Bool, true, ◌≡◌, List, [], ◌++◌, Result, ok, err, length}

-- A method that fails raises a ConnectionError, by its text, or the IncompleteReadError of
-- `readexactly` with what it has read.
pub data ReadError : Type 0 where
  connection_lost : ReadError
  incomplete : List ℕ → ℕ → ReadError

-- A reader in state `S`. `read_all` is `read()`, and the negative sizes of `read`.
pub record Reader (S : Type 0) : Type 0 where
  pub read : ℕ → S → Result ReadError (List ℕ) × S
  pub read_all : S → Result ReadError (List ℕ) × S
  pub readexactly : ℕ → S → Result ReadError (List ℕ) × S
  pub at_eof : S → Bool

-- The reader hands out the bytes of `content`, which are still to come before the end, in their
-- order. Nothing is asked of a read that loses the connection.
pub record IsStream {S : Type 0} (r : Reader S) (content : S → List ℕ) : Type 0 where
  pub read_content :
      (n : ℕ) (s : S) (a : List ℕ) → (r.read n s).0 ≡ ok a → a ++ content (r.read n s).1 ≡ content s
  pub read_bound : (n : ℕ) (s : S) (a : List ℕ) → (r.read n s).0 ≡ ok a → length a ≤ n
  pub read_end : (n : ℕ) (s : S) → 0 < n → (r.read n s).0 ≡ ok [] → content s ≡ []
  pub read_all_content :
      (s : S) (a : List ℕ)
      → (r.read_all s).0 ≡ ok a
      → (a ≡ content s) × (content (r.read_all s).1 ≡ [])
  pub readexactly_content :
      (n : ℕ) (s : S) (a : List ℕ)
      → (r.readexactly n s).0 ≡ ok a
      → (length a ≡ n) × (a ++ content (r.readexactly n s).1 ≡ content s)
  pub readexactly_short :
      (n : ℕ) (s : S) (part : List ℕ) (wanted : ℕ)
      → (r.readexactly n s).0 ≡ err (incomplete part wanted)
      → (part ≡ content s) × (wanted ≡ n) × (length part < n)
  pub at_eof_content : (s : S) → r.at_eof s ≡ true → content s ≡ []
