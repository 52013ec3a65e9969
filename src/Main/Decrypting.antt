-- ===== src/Main/Decrypting.antt =====
-- About `decrypt` of src/main.rs: the files that it leaves alone.
use ftp_reolink.Base.{
  ℕ, ◌+◌, ◌≡◌, ◌≢◌, refl, String, Bool, true, false, Option, none, some, List, [], ◌∷◌, Result, ok,
  err, All, length, arith,
}
use ftp_reolink.Base.Text.{trim, lines}
use ftp_reolink.Path.{FilePath}
use ftp_reolink.Disk.{Node, file, dir, failed, read_open_effect, read_effect}
use ftp_reolink.Disk.Act.{World, Act, call, pure, raise, ◌>>=◌}
use ftp_reolink.Disk.Keeping.{
  Kept, Respects, Sound, Sound-look, Sound-wrap, Sound-bind, Sound-pure, Sound-raise, Sound-attempt,
  Sound-ignore, Sound-write, Sound-remove, open_then,
}
use ftp_reolink.Crypto as Crypto
use ftp_reolink.Crypto.{
  CryptoError, undecryptable, unreadable, copy_plain, copy_opened, decrypt_stream,
}
use ftp_reolink.Main.{
  MainError, io, sys, lift_some, no_key_line, bad_identity, not_age, undecrypted, stem_of, out_path,
  settled, find_key_line, decrypt_to, decrypt_file, decrypt_files, decrypt,
}

-- What decrypting a file writes to is scratch.
abbrev pub Writes : (FilePath → Type 0) → Option FilePath → FilePath → Type 0
Writes Scratch output input =
    (stem : String) → stem_of input ≡ some stem → Scratch (out_path output input stem)

module _ (Scratch : FilePath → Type 0) (f : FilePath) (i : ℕ) (b : List ℕ)
    (solid : Scratch f → ⊥) where
  abbrev Keeps : {E A : Type 0} → Act E A → Type 0
  Keeps = Sound Scratch f i b solid

  and_then :
      {E A B : Type 0} (m : Act E A) (g : A → Act E B)
      → Keeps m
      → ((a : A) → Keeps (g a))
      → Keeps (m >>= g)
  and_then = Sound-bind Scratch f i b solid

  Keeps-read_open : (p : FilePath) → Keeps (sys (read_open_effect p))
  unfolding read_open_effect
  Keeps-read_open p =
      Sound-wrap Scratch f i b solid _ io
        (Sound-look Scratch f i b solid (read_open_effect p) (λ d. ground arith))

  reads : (n : Node) → Keeps (call (read_effect n))
  unfolding read_effect
  reads (file j) = Sound-look Scratch f i b solid _ (λ d. refl)
  reads dir = Sound-look Scratch f i b solid _ (λ d. refl)

  Keeps-copy_plain :
      (j : ℕ) (chunks : List (List ℕ)) (breaks : Bool) (n : ℕ)
      → j ≢ i
      → Keeps (copy_plain j chunks breaks n)
  unfolding copy_plain
  Keeps-copy_plain j [] true n h = Sound-raise Scratch f i b solid undecryptable
  Keeps-copy_plain j [] false n h = Sound-pure Scratch f i b solid n
  Keeps-copy_plain j ([] ∷ chunks) breaks n h = Sound-pure Scratch f i b solid n
  Keeps-copy_plain j ((c ∷ cs) ∷ chunks) breaks n h =
      and_then _ _
        (Sound-wrap Scratch f i b solid _ Crypto.io (Sound-write Scratch f i b solid j (c ∷ cs) h))
        (λ u. Keeps-copy_plain j chunks breaks (n + length (c ∷ cs)) h)

  Keeps-copy_opened : (j : ℕ) (o : Option (List (List ℕ) × Bool)) → j ≢ i → Keeps (copy_opened j o)
  Keeps-copy_opened j none h = Sound-raise Scratch f i b solid undecryptable
  Keeps-copy_opened j (some (chunks, breaks)) h = Keeps-copy_plain j chunks breaks 0 h

  Keeps-lift_some : {A : Type 0} (e : MainError) (o : Option A) → Keeps (lift_some e o)
  Keeps-lift_some e none = Sound-raise Scratch f i b solid e
  Keeps-lift_some e (some a) = Sound-pure Scratch f i b solid a

  module _ {Identity : Type 0} (open_age : Identity → List ℕ → Option (List (List ℕ) × Bool)) where
    Keeps-decrypt_stream :
        (id : Identity) (rd : Node) (j : ℕ) → j ≢ i → Keeps (decrypt_stream open_age id rd j)
    unfolding decrypt_stream
    Keeps-decrypt_stream id rd j h =
        and_then _ _ (Sound-wrap Scratch f i b solid _ unreadable (reads rd))
          (λ sealed. Keeps-copy_opened j (open_age id sealed) h)

    module _ (out : FilePath) (scratch : Scratch out) where
      Keeps-settled : (input : FilePath) (r : Result CryptoError ℕ) → Keeps (settled input out r)
      Keeps-settled input (ok n) = Sound-pure Scratch f i b solid tt
      Keeps-settled input (err e) =
          and_then _ _
            (Sound-ignore Scratch f i b solid _ (Sound-remove Scratch f i b solid out scratch))
            (λ u. Sound-raise Scratch f i b solid (undecrypted input e))

      Keeps-decrypt_to :
          (id : Identity) (input : FilePath) → Keeps (decrypt_to open_age id input out)
      unfolding decrypt_to
      Keeps-decrypt_to id input = and_then _ _ (Keeps-read_open input) λ rd.
          open_then Scratch f i b solid out scratch io false _ λ j apart.
            and_then _ _ (Sound-attempt Scratch f i b solid _ (Keeps-decrypt_stream id rd j apart))
              (Keeps-settled input)

    Keeps-stem :
        (id : Identity) (output : Option FilePath) (input : FilePath) (o : Option String)
        → ((stem : String) → o ≡ some stem → Scratch (out_path output input stem))
        → Keeps (
            lift_some (not_age input) o >>= λ stem.
            decrypt_to open_age id input (out_path output input stem))
    unfolding ◌>>=◌ pure raise
    Keeps-stem id output input none h = record { at = λ w r k. (r, k) }
    Keeps-stem id output input (some stem) h = record {
      at = (Keeps-decrypt_to (out_path output input stem) (h stem refl) id input).at;
    }

    Keeps-decrypt_files :
        (id : Identity) (output : Option FilePath) (files : List FilePath)
        → All (Writes Scratch output) files
        → Keeps (decrypt_files open_age id output files)
    unfolding decrypt_files decrypt_file
    Keeps-decrypt_files id output [] h = Sound-pure Scratch f i b solid tt
    Keeps-decrypt_files id output (input ∷ files) (h, hs) =
        and_then _ _ (Keeps-stem id output input (stem_of input) h)
          (λ u. Keeps-decrypt_files id output files hs)

-- Let some paths be scratch, among them all that `decrypt` writes to, but not `f`. If `f` is a file
-- that shares its inode with no scratch path, then it keeps its name, its inode and its bytes through
-- the decryption of any files, with whatever faults, and with whatever others do between the calls
-- as long as that respects the file too. So the encrypted files themselves are kept.
pub decrypt_keeps :
    {Identity : Type 0} (open_age : Identity → List ℕ → Option (List (List ℕ) × Bool))
    (from_utf8 : List ℕ → Option String) (parse_identity : String → Option Identity)
    (Scratch : FilePath → Type 0) (f : FilePath) (i : ℕ) (b : List ℕ) (identity : FilePath)
    (output : Option FilePath) (files : List FilePath) (w : World)
    → (solid : Scratch f → ⊥) → All (Writes Scratch output) files
    → All (Respects Scratch f i b solid) w.turns
    → Kept Scratch f i b w.disk
    → Kept Scratch f i b (decrypt open_age from_utf8 parse_identity identity output files w).1.disk
unfolding decrypt
decrypt_keeps open_age from_utf8 parse_identity Scratch f i b identity output files w solid h r k =
    (step.at w r k).1
  where
    step :
        Keeps Scratch f i b solid (decrypt open_age from_utf8 parse_identity identity output files)
    step = and_then Scratch f i b solid _ _ (Keeps-read_open Scratch f i b solid identity) λ rd.
        and_then Scratch f i b solid _ _
          (Sound-wrap Scratch f i b solid _ io (reads Scratch f i b solid rd))
          λ content.
            and_then Scratch f i b solid _ _
              (Keeps-lift_some Scratch f i b solid (io failed) (from_utf8 content))
              λ id_text.
                and_then Scratch f i b solid _ _
                  (Keeps-lift_some Scratch f i b solid no_key_line (find_key_line (lines id_text)))
                  λ key_line.
                    and_then Scratch f i b solid _ _
                      (Keeps-lift_some Scratch f i b solid bad_identity
                        (parse_identity (trim key_line)))
                      λ id. Keeps-decrypt_files Scratch f i b solid open_age id output files h
