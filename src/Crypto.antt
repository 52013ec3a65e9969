-- ===== src/Crypto.antt =====
-- src/crypto.rs: encryption and decryption of a stream. `open_age` is the age crate's: from an identity
-- and all the bytes of the reader, what the successive reads of the plain text yield, and whether one
-- fails after them; `none` where the header cannot be read or is not for the identity. `Age` is the age
-- crate's writer. `parse_recipients` stands in Config.antt.
pub mod Sealing
mod Examples
use ftp_reolink.Base.{ℕ, ◌+◌, Bool, true, false, Option, none, some, List, [], ◌∷◌, length}
use ftp_reolink.Store.{flush_effect}
use ftp_reolink.Disk.{IoError, failed, Node, read_effect, write_effect}
use ftp_reolink.Disk.Act.{Act, call, pure, raise, wrap_err, ◌>>=◌, ◌>>◌}

-- `Decrypt`, `Encrypt` and `Io`. (`Recipient` is the error of `parse_recipients`, a text; nothing
-- makes an `Identity`.)
pub data CryptoError : Type 0 where
  undecryptable : CryptoError
  unencryptable : CryptoError
  io : IoError → CryptoError

-- The loop: an empty read ends it.
unfoldable pub copy_plain : ℕ → List (List ℕ) → Bool → ℕ → Act CryptoError ℕ
copy_plain wr [] true total = raise undecryptable
copy_plain wr [] false total = pure total
copy_plain wr ([] ∷ reads) breaks total = pure total
copy_plain wr ((b ∷ buf) ∷ reads) breaks total =
    wrap_err io (call (write_effect wr (b ∷ buf)))
    >> copy_plain wr reads breaks (total + length (b ∷ buf))

-- A reader that cannot be read is a failed decryption.
abbrev pub unreadable : IoError → CryptoError
unreadable e = undecryptable

abbrev pub copy_opened : ℕ → Option (List (List ℕ) × Bool) → Act CryptoError ℕ
copy_opened wr none = raise undecryptable
copy_opened wr (some (reads, breaks)) = copy_plain wr reads breaks 0

-- From the open file `rd` to the open file `wr`. Nobody else writes to `rd` while it is read.
unfoldable pub decrypt_stream :
    {Identity : Type 0}
    → (Identity → List ℕ → Option (List (List ℕ) × Bool))
    → Identity
    → Node
    → ℕ
    → Act CryptoError ℕ
unfolding copy_plain
decrypt_stream open_age identity rd wr = do
  sealed ← wrap_err unreadable (call (read_effect rd))
  copy_opened wr (open_age identity sealed)

-- `age::Encryptor` and its `StreamWriter`: what each call passes on to the inner writer, piece by
-- piece. `with_recipients` refuses some lists of recipients, such as the empty one; with it goes
-- `wrap_output`, which passes on the header.
pub record Age (Recipient Writer : Type 0) : Type 0 where
  pub with_recipients : List Recipient → Option (List (List ℕ) × Writer)
  pub write : Writer → List ℕ → List (List ℕ) × Writer
  pub finish : Writer → List (List ℕ)

unfoldable pub write_pieces : ℕ → List (List ℕ) → Act IoError (Unit {0})
write_pieces wr [] = pure tt
write_pieces wr (c ∷ pieces) = call (write_effect wr c) >> write_pieces wr pieces

abbrev pub sealing_failed : IoError → CryptoError
sealing_failed e = unencryptable

module _ {Recipient Writer : Type 0} (age : Age Recipient Writer) where
  -- `std::io::copy` into the stream writer: the plain bytes are counted.
  unfoldable pub copy_sealed : ℕ → Writer → List (List ℕ) → Bool → ℕ → Act IoError (ℕ × Writer)
  copy_sealed wr writer [] true n = raise failed
  copy_sealed wr writer [] false n = pure (n, writer)
  copy_sealed wr writer (c ∷ chunks) breaks n =
      let (pieces, writer') = age.write writer c in
      write_pieces wr pieces >> copy_sealed wr writer' chunks breaks (n + length c)

  -- `finish` and the flush.
  unfoldable pub finish_sealed : ℕ → ℕ × Writer → Act CryptoError ℕ
  finish_sealed wr (n, writer) = do
    wrap_err sealing_failed (write_pieces wr (age.finish writer))
    wrap_err io (call flush_effect)
    pure n

  abbrev pub wrapped :
      ℕ → Option (List (List ℕ) × Writer) → List (List ℕ) → Bool → Act CryptoError ℕ
  wrapped wr none chunks breaks = raise unencryptable
  wrapped wr (some (header, writer)) chunks breaks =
      wrap_err sealing_failed (write_pieces wr header)
      >> (wrap_err io (copy_sealed wr writer chunks breaks 0) >>= finish_sealed wr)

  -- Into the open file `wr`, from a reader that yields `chunks`.
  unfoldable pub encrypt_stream : List Recipient → ℕ → List (List ℕ) → Bool → Act CryptoError ℕ
  unfolding copy_sealed finish_sealed
  encrypt_stream recipients wr chunks breaks =
      wrapped wr (age.with_recipients recipients) chunks breaks
