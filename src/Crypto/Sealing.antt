-- ===== src/Crypto/Sealing.antt =====
-- About `encrypt_stream` of src/crypto.rs: what it writes.
use mathlib.Core.List.{append-nil}
use ftp_reolink.Base.{
  ℕ, ◌+◌, ◌≡◌, refl, ap, ◌∙◌, Bool, true, false, Option, none, some, List, [], ◌∷◌, ◌++◌, Result,
  ok, err, map_err, length, arith, inl, inr,
}
use ftp_reolink.Disk.{Disk, IoError, failed, write_effect, exists_effect, open_effect}
use ftp_reolink.Disk.Act.{World, Act, call, pure, raise, attempt, wrap_err, continue, ◌>>=◌, ◌>>◌}
use ftp_reolink.Disk.Calls.{call_cases, rebind}
use ftp_reolink.Store.{
  StoreError, Input, io, os, copy, flush_effect, total_length, present_or_false, refuse_if,
  finalized, create_parent, finalize, store_encrypted,
}
use std.Path.{fun_ext}
use ftp_reolink.Path.{FilePath}
use ftp_reolink.Append.{staging_path}
use ftp_reolink.Crypto.{
  CryptoError, io as io_error, Age, write_pieces, sealing_failed, copy_sealed, finish_sealed,
  wrapped, encrypt_stream,
}

writes : (wr : ℕ) (c : List ℕ) (d : Disk) → (write_effect wr c d).0 ≡ ok tt
unfolding write_effect
writes wr c d = refl

module _ {Recipient Writer : Type 0} (age : Age Recipient Writer) where
  abbrev after : List (List ℕ) → List (List ℕ) × Bool → List (List ℕ) × Bool
  after pieces (rest, breaks) = (pieces ++ rest, breaks)

  unfoldable pub sealed_rest : Writer → List (List ℕ) → Bool → List (List ℕ) × Bool
  sealed_rest writer [] true = ([], true)
  sealed_rest writer [] false = (age.finish writer, false)
  sealed_rest writer (c ∷ chunks) breaks =
      let (pieces, writer') = age.write writer c in after pieces (sealed_rest writer' chunks breaks)

  abbrev pub sealed_with :
      Option (List (List ℕ) × Writer) → List (List ℕ) → Bool → List (List ℕ) × Bool
  sealed_with none chunks breaks = ([], true)
  sealed_with (some (header, writer)) chunks breaks =
      after header (sealed_rest writer chunks breaks)

  -- What age makes of the chunks for the recipients, and whether it fails after that.
  unfoldable pub sealed_by : List Recipient → List (List ℕ) → Bool → List (List ℕ) × Bool
  sealed_by recipients chunks breaks = sealed_with (age.with_recipients recipients) chunks breaks

  -- The errors of the task become `io::Error::other`.
  abbrev pub other : CryptoError → StoreError
  other e = io failed

  -- The part of `store_encrypted` that writes.
  abbrev pub written : ℕ → List (List ℕ) × Bool → ℕ → ℕ → Act StoreError ℕ
  written wr sealed n total =
      wrap_err io (copy wr sealed.0 sealed.1 n) >>= λ m. os flush_effect >>= λ u. pure total

  module _ (wr total : ℕ) where
    pieces_then :
        (f : IoError → CryptoError) (pieces : List (List ℕ)) (next : Act CryptoError ℕ)
        (rest : List (List ℕ)) (breaks : Bool)
        → ((n : ℕ) (w : World) → wrap_err other next w ≡ written wr (rest, breaks) n total w)
        → (n : ℕ) (w : World)
        → wrap_err other (wrap_err f (write_pieces wr pieces) >>= λ u. next) w
          ≡ written wr (pieces ++ rest, breaks) n total w
    unfolding ◌>>=◌ wrap_err pure write_pieces copy
    pieces_then f [] next rest breaks h n w = h n w
    pieces_then f (c ∷ pieces) next rest breaks h n w =
        elim (call_cases (write_effect wr c) tt (writes wr c) w) [
          | inl (w', e) ↦ rw e (pieces_then f pieces next rest breaks h (n + length c) w')
          | inr (w', e) ↦ rw e refl
        ]

  module _ (wr : ℕ) where
    flush_then :
        (total n : ℕ) (w : World)
        → wrap_err other (wrap_err io_error (call flush_effect) >>= λ u. pure total) w
          ≡ written wr ([], false) n total w
    unfolding ◌>>=◌ wrap_err pure copy
    flush_then total n w = elim (call_cases flush_effect tt (λ d. refl) w) [
      | inl (w', e) ↦ rw e refl
      | inr (w', e) ↦ rw e refl
    ]

    copy_then :
        (chunks : List (List ℕ)) (writer : Writer) (breaks : Bool) (done n : ℕ) (w : World)
        → wrap_err other
            (wrap_err io_error (copy_sealed age wr writer chunks breaks done)
              >>= finish_sealed age wr)
            w
          ≡ written wr (sealed_rest writer chunks breaks) n (done + total_length chunks) w
    unfolding copy_sealed finish_sealed sealed_rest total_length ◌>>=◌ wrap_err pure raise copy
    copy_then [] writer true done n w = refl
    copy_then [] writer false done n w =
        pieces_then wr done sealing_failed (age.finish writer)
          (wrap_err io_error (call flush_effect) >>= λ u. pure done) [] false (flush_then done) n w
        ∙ (ap (λ (t : List (List ℕ)). written wr (t, false) n done w)
              (append-nil (age.finish writer))
            ∙ ap (λ (t : ℕ). written wr (age.finish writer, false) n t w) (omega arith))
    copy_then (c ∷ chunks) writer breaks done n w =
        let (pieces, writer') = age.write writer c in
        let rest = sealed_rest writer' chunks breaks in
        ap (λ (x : Result CryptoError ℕ × World). (map_err other x.0, x.1))
          (rebind io_error (write_pieces wr pieces)
            (λ u. copy_sealed age wr writer' chunks breaks (done + length c)) (finish_sealed age wr)
            w)
        ∙ pieces_then wr (done + (length c + total_length chunks)) io_error pieces
            (wrap_err io_error (copy_sealed age wr writer' chunks breaks (done + length c))
              >>= finish_sealed age wr)
            rest.0 rest.1
            (λ m v.
              copy_then chunks writer' breaks (done + length c) m v
              ∙ ap (λ (t : ℕ). written wr rest m t v) (omega arith))
            n w

  -- `encrypt_stream` writes the pieces that age makes.
  encrypt_stream_lem :
      (recipients : List Recipient) (wr : ℕ) (input : Input) (w : World)
      → wrap_err other (encrypt_stream age recipients wr input.chunks input.breaks) w
        ≡ written wr
            (sealed_by recipients input.chunks input.breaks)
            0
            (total_length input.chunks)
            w
  unfolding encrypt_stream sealed_by ◌>>=◌ wrap_err raise copy
  encrypt_stream_lem recipients wr input w = go (age.with_recipients recipients)
    where
      go :
          (o : Option (List (List ℕ) × Writer))
          → wrap_err other (wrapped age wr o input.chunks input.breaks) w
            ≡ written wr (sealed_with o input.chunks input.breaks) 0 (total_length input.chunks) w
      go none = refl
      go (some (header, writer)) =
          let rest = sealed_rest writer input.chunks input.breaks in
          pieces_then wr (total_length input.chunks) sealing_failed header
            (wrap_err io_error (copy_sealed age wr writer input.chunks input.breaks 0)
              >>= finish_sealed age wr)
            rest.0 rest.1
            (λ m v.
              copy_then wr input.chunks writer input.breaks 0 m v
              ∙ ap (λ (t : ℕ). written wr rest m t v) (omega arith))
            0 w

  -- `store_encrypted` with the task that it spawns, as it stands.
  unfoldable pub store_encrypted_by : List Recipient → FilePath → Input → Act StoreError ℕ
  store_encrypted_by recipients real_final input = do
    present ← attempt (call (exists_effect real_final))
    refuse_if (present_or_false present) finalized
    let staging = staging_path real_final
    create_parent staging
    file ← os (open_effect false staging)
    n ← wrap_err other (encrypt_stream age recipients file input.chunks input.breaks)
    finalize staging real_final n

  segment :
      (recipients : List Recipient) (input : Input) (file : ℕ) (next : ℕ → Act StoreError ℕ)
      (w : World)
      → (wrap_err other (encrypt_stream age recipients file input.chunks input.breaks) >>= next) w
        ≡ (wrap_err io (
                copy file
                  (sealed_by recipients input.chunks input.breaks).0
                  (sealed_by recipients input.chunks input.breaks).1
                  0)
              >>= λ m. os flush_effect >>= λ u. next (total_length input.chunks))
            w
  unfolding ◌>>=◌ pure
  segment recipients input file next w =
      ap (λ (x : Result StoreError ℕ × World). continue x.0 next x.1)
        (encrypt_stream_lem recipients file input w)
      ∙ go (
          wrap_err io
            (copy file (sealed_by recipients input.chunks input.breaks).0
              (sealed_by recipients input.chunks input.breaks).1 0)
            w)
    where
      flushed :
          (y : Result StoreError (Unit {0}) × World)
          → (let z = continue y.0 (λ u v. (ok (total_length input.chunks), v)) y.1 in
              continue z.0 next z.1)
            ≡ continue y.0 (λ u. next (total_length input.chunks)) y.1
      flushed (ok u, w') = refl
      flushed (err e, w') = refl

      go :
          (x : Result StoreError ℕ × World)
          → (let z =
                continue x.0
                  (λ m v.
                    let y = os flush_effect v in
                    continue y.0 (λ u v. (ok (total_length input.chunks), v)) y.1)
                  x.1 in
              continue z.0 next z.1)
            ≡ continue x.0
                (λ m v.
                  let y = os flush_effect v in
                  continue y.0 (λ u. next (total_length input.chunks)) y.1)
                x.1
      go (ok m, w') = flushed (os flush_effect w')
      go (err e, w') = refl

  -- The encrypted store with the task that it spawns does and answers just what the encrypted store does
  -- that writes the pieces of age, in every script of faults and of other sessions: the task writes
  -- them in order, fails where age does, flushes, and answers the number of plain bytes.
  pub store_encrypted_lem :
      (recipients : List Recipient) (p : FilePath) (input : Input) (w : World)
      → store_encrypted_by recipients p input w ≡ store_encrypted (sealed_by recipients) p input w
  unfolding store_encrypted_by store_encrypted
  store_encrypted_lem recipients p input w =
      ap
        (λ (rest : ℕ → Act StoreError ℕ).
          (attempt (call (exists_effect p)) >>= λ present.
          refuse_if (present_or_false present) finalized >>= λ u.
          create_parent (staging_path p) >>= λ v. os (open_effect false (staging_path p)) >>= rest)
            w)
        (fun_ext
          (λ file. fun_ext (λ v. segment recipients input file (finalize (staging_path p) p) v)))
