-- ===== src/Sync/Client.antt =====
-- The operations of `AdbSyncClient` in droid_web_display/transfers/adb_sync.py. Texts are their
-- UTF-8 bytes. A loop has as fuel the number of bytes that are still to come, of which each of its
-- turns takes at least four.
use droid_web_display.Common.{
  ℕ, zero, suc, ◌+◌, ◌/◌, ◌%◌, min, max, Bool, not, ◌&&◌, ◌||◌, List, [], ◌∷◌, ◌++◌, ◌==◌, leb,
  if◌then◌else◌, length, take, drop, return, raise, lift, reads, writes, require, ◌>>=◌, ◌>>◌,
}
use droid_web_display.Sync.Wire.{
  closed, not_regular, oversized, size_mismatch, failed, unexpected, Talk, read_exactly, write,
  little, pack, unpack, same_bytes,
}

pub record SyncStat : Type 0 where
  pub mode : ℕ
  pub size : ℕ
  pub modified_at : ℕ

pub record SyncEntry : Type 0 where
  pub name : List ℕ
  pub mode : ℕ
  pub size : ℕ
  pub modified_at : ℕ

abbrev pub exists : SyncStat → Bool
exists s = not (s.mode == 0)

-- `(mode & 0o170000) == 0o040000`
abbrev pub is_directory : ℕ → Bool
is_directory mode = (mode / 0o10000) % 0o20 == 0o4

-- The command words
abbrev pub list_word : List ℕ
list_word = b'L' ∷ b'I' ∷ b'S' ∷ b'T' ∷ []

abbrev pub stat_word : List ℕ
stat_word = b'S' ∷ b'T' ∷ b'A' ∷ b'T' ∷ []

abbrev pub recv_word : List ℕ
recv_word = b'R' ∷ b'E' ∷ b'C' ∷ b'V' ∷ []

abbrev pub send_word : List ℕ
send_word = b'S' ∷ b'E' ∷ b'N' ∷ b'D' ∷ []

abbrev pub dent_word : List ℕ
dent_word = b'D' ∷ b'E' ∷ b'N' ∷ b'T' ∷ []

abbrev pub data_word : List ℕ
data_word = b'D' ∷ b'A' ∷ b'T' ∷ b'A' ∷ []

abbrev pub done_word : List ℕ
done_word = b'D' ∷ b'O' ∷ b'N' ∷ b'E' ∷ []

abbrev pub fail_word : List ℕ
fail_word = b'F' ∷ b'A' ∷ b'I' ∷ b'L' ∷ []

abbrev pub okay_word : List ℕ
okay_word = b'O' ∷ b'K' ∷ b'A' ∷ b'Y' ∷ []

abbrev pub read_number : Talk ℕ
read_number = do bytes ← read_exactly 4; return (unpack bytes)

-- `raise await self._read_sync_failure(reader)`
unfoldable pub read_sync_failure : {A : Type 0} → Talk A
read_sync_failure = do n ← read_number; message ← read_exactly n; raise (failed message)

-- `_send_sync_request`, whose command words all have four bytes
unfoldable pub send_sync_request : List ℕ → List ℕ → Talk (Unit {0})
send_sync_request command payload = do
  n ← lift (pack (length payload))
  write (command ++ n ++ payload)

-- `self.chunk_size`
abbrev pub chunk_size_of : ℕ → ℕ
chunk_size_of n = min (max n 4096) 65536

abbrev pub is_dots : List ℕ → Bool
is_dots name = same_bytes name (b'.' ∷ []) || same_bytes name (b'.' ∷ b'.' ∷ [])

abbrev pub with_entry : SyncEntry → List SyncEntry → List SyncEntry
with_entry e es = if is_dots e.name then es else e ∷ es

-- `decode` is Python's `decode("utf-8", errors="replace")`, as the UTF-8 bytes of its result.
abbrev pub read_entry : (List ℕ → List ℕ) → Talk SyncEntry
read_entry decode = do
  head ← read_exactly 16
  name ← read_exactly (unpack (drop 12 head))
  return (record {
    name = decode name;
    mode = unpack head;
    size = unpack (drop 4 head);
    modified_at = unpack (drop 8 head);
  })

-- The loop of `list`.
unfoldable pub read_entries : (List ℕ → List ℕ) → ℕ → Talk (List SyncEntry)
read_entries decode zero = raise closed
read_entries decode (suc fuel) = do
  command ← read_exactly 4
  if same_bytes command dent_word
      then (do e ← read_entry decode; es ← read_entries decode fuel; return (with_entry e es))
      else if same_bytes command done_word
      then (do read_exactly 16; return [])
      else if same_bytes command fail_word
      then read_sync_failure
      else raise (unexpected command)

unfoldable pub list_directory : (List ℕ → List ℕ) → List ℕ → Talk (List SyncEntry)
list_directory decode path = do
  send_sync_request list_word path
  fuel ← reads (λ k. suc (length k.input))
  read_entries decode fuel

unfoldable pub stat : List ℕ → Talk SyncStat
stat path = do
  send_sync_request stat_word path
  command ← read_exactly 4
  if same_bytes command fail_word
      then read_sync_failure
      else if not (same_bytes command stat_word)
      then raise (unexpected command)
      else do
        body ← read_exactly 12
        return (record {
          mode = unpack body;
          size = unpack (drop 4 body);
          modified_at = unpack (drop 8 body);
        })

abbrev pub save : List ℕ → Talk (Unit {0})
save bytes = writes (λ k. record k { file = k.file ++ bytes })

-- The loop of `pull`, with how many bytes it has transferred.
unfoldable pub receive : ℕ → ℕ → Talk ℕ
receive zero total = raise closed
receive (suc fuel) total = do
  command ← read_exactly 4
  if same_bytes command data_word
      then (do
        n ← read_number
        require (leb n 65536) oversized
        bytes ← read_exactly n
        save bytes
        receive fuel (total + length bytes))
      else if same_bytes command done_word
      then (do read_exactly 4; return total)
      else if same_bytes command fail_word
      then read_sync_failure
      else raise (unexpected command)

-- On the connection that `pull` opens after its `stat`, with what that answered.
unfoldable pub pull : List ℕ → SyncStat → Talk ℕ
pull path found = do
  require (exists found && not (is_directory found.mode)) not_regular
  send_sync_request recv_word path
  writes (λ k. record k { file = [] })
  fuel ← reads (λ k. suc (length k.input))
  transferred ← receive fuel 0
  require (transferred == found.size) size_mismatch
  return transferred

-- The bytes that the loop of `push` writes, a `DATA` frame for each chunk.
abbrev pub frame : List ℕ → List ℕ → List ℕ
frame chunk rest = data_word ++ (little (length chunk) ++ (chunk ++ rest))

unfoldable pub frames : ℕ → ℕ → List ℕ → List ℕ → List ℕ
frames zero size content rest = rest
frames (suc fuel) size [] rest = rest
frames (suc fuel) size (x ∷ xs) rest =
    frame (take size (x ∷ xs)) (frames fuel size (drop size (x ∷ xs)) rest)

-- What `push` writes behind its request, with the time in seconds that ends it.
abbrev pub sent_bytes : ℕ → List ℕ → List ℕ → List ℕ
sent_bytes size content end = frames (length content) size content [] ++ (done_word ++ end)

-- With the path and mode of the target, the file's content and the time in seconds.
unfoldable pub push : ℕ → ℕ → List ℕ → List ℕ → Talk ℕ
push chunk_size now spec content = do
  send_sync_request send_word spec
  end ← lift (pack now)
  write (sent_bytes (chunk_size_of chunk_size) content end)
  command ← read_exactly 4
  status ← read_number
  if same_bytes command fail_word
      then (do message ← read_exactly status; raise (failed message))
      else do require (same_bytes command okay_word) (unexpected command); return (length content)
