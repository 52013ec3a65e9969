-- ===== src/Store/Immutable.antt =====
-- About both stores of src/backend.rs: finished files under them.
use ftp_reolink.Base.{ℕ, refl, List, Bool, true, false}
use ftp_reolink.Path.{FilePath, parent}
use ftp_reolink.Append.{staging_path, classify_offset}
use ftp_reolink.Disk.{exists_effect, metadata_effect}
use ftp_reolink.Disk.Act.{Act, call, ◌>>=◌}
use ftp_reolink.Disk.Keeping.{
  Sound-look, Sound-wrap, Sound-bind, Sound-attempt, Sound-exists, Sound-metadata, open_then,
}
use ftp_reolink.Store.{
  Input, io, flush_effect, store_stream, store_encrypted, present_or_false, total_length, finalized,
}
use ftp_reolink.Store.Keeping.{
  Keeps, Keeps-os, Keeps-refuse, Keeps-size, Keeps-copy, Keeps-offset, Keeps-parent, Keeps-copied,
  Keeps-finalize,
}

module _ (Scratch : FilePath → Type 0) (f : FilePath) (i : ℕ) (b : List ℕ) (solid : Scratch f → ⊥)
    (p : FilePath) (scratch : Scratch (staging_path p)) where
  abbrev s : FilePath
  s = staging_path p

  and_then :
      {E A B : Type 0} (m : Act E A) (g : A → Act E B)
      → Keeps Scratch f i b solid m
      → ((a : A) → Keeps Scratch f i b solid (g a))
      → Keeps Scratch f i b solid (m >>= g)
  and_then = Sound-bind Scratch f i b solid

  flushes : Keeps Scratch f i b solid (call flush_effect)
  flushes = Sound-look Scratch f i b solid flush_effect (λ d. refl)

  pub store_stream-Keeps :
      (start : ℕ) (input : Input) → Keeps Scratch f i b solid (store_stream p start input)
  unfolding store_stream
  store_stream-Keeps start input =
      and_then _ _
        (Keeps-os Scratch f i b solid (exists_effect p) (Sound-exists Scratch f i b solid p))
        λ present. and_then _ _ (Keeps-refuse Scratch f i b solid present finalized) λ _.
          and_then _ _
            (Sound-attempt Scratch f i b solid (call (metadata_effect s))
              (Sound-metadata Scratch f i b solid s))
            λ found. and_then _ _ (Keeps-size Scratch f i b solid found) λ size.
              and_then _ _ (Keeps-offset Scratch f i b solid s scratch (classify_offset start size))
                λ _. and_then _ _ (Keeps-parent Scratch f i b solid s scratch (parent s) refl) λ _.
                  open_then Scratch f i b solid s scratch io true _ λ j apart.
                    and_then _ _
                      (Sound-attempt Scratch f i b solid _
                        (Keeps-copy Scratch f i b solid j input.chunks input.breaks 0 apart))
                      λ answer.
                        and_then _ _ (Keeps-copied Scratch f i b solid s scratch answer) λ n.
                          and_then _ _ (Keeps-os Scratch f i b solid flush_effect flushes)
                            λ _. Keeps-finalize Scratch f i b solid s scratch p n

  pub store_encrypted-Keeps :
      (encrypt : List (List ℕ) → Bool → List (List ℕ) × Bool) (input : Input)
      → Keeps Scratch f i b solid (store_encrypted encrypt p input)
  unfolding store_encrypted
  store_encrypted-Keeps encrypt input =
      and_then _ _
        (Sound-attempt Scratch f i b solid (call (exists_effect p))
          (Sound-exists Scratch f i b solid p))
        λ present.
          and_then _ _ (Keeps-refuse Scratch f i b solid (present_or_false present) finalized) λ _.
            and_then _ _ (Keeps-parent Scratch f i b solid s scratch (parent s) refl) λ _.
              open_then Scratch f i b solid s scratch io false _ λ j apart.
                and_then _ _
                  (Sound-wrap Scratch f i b solid _ io
                    (Keeps-copy Scratch f i b solid j _ _ 0 apart))
                  λ written.
                    and_then _ _ (Keeps-os Scratch f i b solid flush_effect flushes) λ _.
                      Keeps-finalize Scratch f i b solid s scratch p (total_length input.chunks)
