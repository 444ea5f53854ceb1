-- ===== src/Transfers/Spool.antt =====
-- The upload spool of droid_web_display/transfers/manager.py.
use droid_web_display.Common.{
  ℕ, ◌+◌, String, Bool, not, ◌&&◌, Option, none, some, List, [], ◌∷◌, ◌==◌, ltb, if◌then◌else◌,
  insert, erase, Result, ok, err, return, raise, reads, writes, ◌>>=◌, ◌>>◌,
}
use droid_web_display.Transfers.Types.{
  Fault, os_error, conflict, validation, transfer_error, Action,
}
use droid_web_display.Transfers.Filenames.{sanitize_filename}

-- The loop over the chunks, which ends at an empty one: the total that is reached.
unfoldable pub read_chunks : ℕ → ℕ → List ℕ → Result Fault ℕ
read_chunks limit total [] = ok total
read_chunks limit total (n ∷ chunks) =
    let rest = read_chunks limit (total + n) chunks in
    if n == 0
    then ok total
    else if ltb limit (total + n)
    then err (validation "file exceeds configured maximum size")
    else rest

-- What both ways of spooling do once the copy is made: the spool file is removed where it failed.
abbrev pub keep_spool : String → String → Result Fault ℕ → Action (String × ℕ × String)
keep_spool spool name (err f) = do writes (λ m. record m { files = erase spool m.files }); raise f
keep_spool spool name (ok total) = do
  writes (λ m. record m { files = insert spool total m.files })
  return (spool, total, sanitize_filename name)

-- With the name of the spool file, which is drawn at random.
unfoldable pub spool_upload : String → String → List ℕ → Action (String × ℕ × String)
spool_upload spool filename chunks = do
  limit ← reads (λ m. m.maximum_file_size)
  keep_spool spool filename (read_chunks limit 0 chunks)

-- A file's size and modification time.
pub record LocalStat : Type 0 where
  pub size : ℕ
  pub modified : ℕ

abbrev pub is_changed : LocalStat → LocalStat → Bool
is_changed a b = not (a.size == b.size && a.modified == b.modified)

-- What is checked once the source has been copied: the sizes before, after and in the spool.
abbrev pub copied : LocalStat → LocalStat → ℕ → Result Fault ℕ
copied before after n =
    if is_changed before after
    then err (conflict "local sync source changed while preparing upload")
    else if n == after.size
    then ok after.size
    else err (transfer_error "local sync spool verification failed")

abbrev pub measured : LocalStat → LocalStat → Option ℕ → Result Fault ℕ
measured before after none = err os_error
measured before after (some n) = copied before after n

-- `none` where the source is no regular file; `copy` is the size that the copy has, where it works.
unfoldable pub spool_local_file :
    String → String → Option LocalStat → LocalStat → Option ℕ → Action (String × ℕ × String)
spool_local_file spool name none after copy =
    raise (validation "local sync source is not a regular file")
spool_local_file spool name (some before) after copy = do
  limit ← reads (λ m. m.maximum_file_size)
  if ltb limit before.size
      then raise (validation "file exceeds configured maximum size")
      else keep_spool spool name (measured before after copy)
