-- ===== src/Store.antt =====
-- src/backend.rs: `store_stream` and `store_encrypted`, the writes that never replace a file. What
-- a client sends is a list of chunks, with a mark if the stream breaks off after them. Encryption
-- is the age crate's: a function from the chunks of the plain text to what it writes.
pub mod Keeping
pub mod Immutable
pub mod Atomic
pub mod Publish
pub mod Outcome
pub mod Gaps
pub mod Sealed
pub mod Encrypted
pub mod Plain
mod Examples
use ftp_reolink.Base.{
  ℕ, ◌+◌, String, Bool, true, false, Option, none, some, List, [], ◌∷◌, ◌++◌, Result, ok, err,
  length, if◌then◌else◌,
}
use ftp_reolink.Path.{FilePath, parent, push_text}
use ftp_reolink.Append.{staging_path, OffsetVerdict, proceed, overlap, gap, classify_offset}
use ftp_reolink.Disk.{
  Disk, IoError, not_found, already_exists, failed, FileMetadata, Effect, exists_effect,
  metadata_effect, remove_effect, create_dirs_effect, open_effect, write_effect, link_effect,
}
use ftp_reolink.Disk.Act.{Act, call, pure, raise, wrap_err, attempt, ignore, ◌>>=◌, ◌>>◌}

pub data StoreError : Type 0 where
  overlaps gaps finalized : StoreError
  io : IoError → StoreError

-- The bytes that a client sends, as they arrive.
pub record Input : Type 0 where
  pub chunks : List (List ℕ)
  pub breaks : Bool

abbrev pub os : {A : Type 0} → Effect A → Act StoreError A
os f = wrap_err io (call f)

-- The size of the staging file, 0 if there is none.
abbrev pub size_or_zero : Result IoError FileMetadata → Act StoreError ℕ
size_or_zero (ok m) = pure m.len
size_or_zero (err not_found) = pure 0
size_or_zero (err already_exists) = raise (io already_exists)
size_or_zero (err failed) = raise (io failed)

abbrev pub discard : FilePath → Act StoreError (Unit {0})
discard staging = ignore (call (remove_effect staging))

unfoldable pub check_offset : FilePath → OffsetVerdict → Act StoreError (Unit {0})
check_offset staging proceed = pure tt
check_offset staging overlap = do discard staging; raise overlaps
check_offset staging gap = do discard staging; raise gaps

unfoldable pub create_parent : FilePath → Act StoreError (Unit {0})
create_parent staging = elim (parent staging) [
  | some dirs ↦ os (create_dirs_effect dirs)
  | none ↦ pure tt
]

-- `tokio::io::copy` into an open file: one write for each chunk, and the count of bytes.
unfoldable pub copy : ℕ → List (List ℕ) → Bool → ℕ → Act IoError ℕ
copy i [] true n = raise failed
copy i [] false n = pure n
copy i (c ∷ chunks) breaks n = call (write_effect i c) >> copy i chunks breaks (n + length c)

-- A failed copy takes the staging file with it.
abbrev pub copied : FilePath → Result IoError ℕ → Act StoreError ℕ
copied staging (ok n) = pure n
copied staging (err e) = do discard staging; raise (io e)

-- `flush` has no effect on what others see; it may fail.
abbrev pub flush_effect : Effect (Unit {0})
flush_effect d = (ok tt, d)

abbrev pub linked : FilePath → ℕ → Result IoError (Unit {0}) → Act StoreError ℕ
linked staging n (ok u) = do discard staging; pure n
linked staging n (err already_exists) = do discard staging; raise finalized
linked staging n (err not_found) = do discard staging; raise (io not_found)
linked staging n (err failed) = do discard staging; raise (io failed)

-- The last step of both stores: the staging file gets the final name, if that is free.
unfoldable pub finalize : FilePath → FilePath → ℕ → Act StoreError ℕ
finalize staging real_final n = do
  answer ← attempt (call (link_effect staging real_final))
  linked staging n answer

abbrev pub refuse_if : Bool → StoreError → Act StoreError (Unit {0})
refuse_if true e = raise e
refuse_if false e = pure tt

unfoldable pub store_stream : FilePath → ℕ → Input → Act StoreError ℕ
unfolding check_offset create_parent copy finalize staging_path
store_stream real_final start_pos input = do
  present ← os (exists_effect real_final)
  refuse_if present finalized
  let staging = staging_path real_final
  found ← attempt (call (metadata_effect staging))
  existing_size ← size_or_zero found
  check_offset staging (classify_offset start_pos existing_size)
  create_parent staging
  file ← os (open_effect true staging)
  answer ← attempt (copy file input.chunks input.breaks 0)
  bytes_written ← copied staging answer
  os flush_effect
  finalize staging real_final bytes_written

-- `clip.mp4` becomes `clip.mp4.age`.
unfoldable pub age_suffix : FilePath → FilePath
age_suffix p = push_text p ".age"

abbrev pub present_or_false : Result IoError Bool → Bool
present_or_false (ok b) = b
present_or_false (err e) = false

-- `std::io::copy` counts the plain bytes.
unfoldable pub total_length : List (List ℕ) → ℕ
total_length [] = 0
total_length (c ∷ chunks) = length c + total_length chunks

-- `encrypt` gives what age writes for the plain chunks, in chunks, and whether it fails after them.
unfoldable pub store_encrypted :
    (List (List ℕ) → Bool → List (List ℕ) × Bool) → FilePath → Input → Act StoreError ℕ
unfolding create_parent copy finalize staging_path total_length
store_encrypted encrypt real_final input = do
  present ← attempt (call (exists_effect real_final))
  refuse_if (present_or_false present) finalized
  let staging = staging_path real_final
  create_parent staging
  file ← os (open_effect false staging)
  let sealed = encrypt input.chunks input.breaks
  written ← wrap_err io (copy file sealed.0 sealed.1 0)
  os flush_effect
  finalize staging real_final (total_length input.chunks)
