-- ===== src/Store/Keeping.antt =====
-- About each step of the stores of src/backend.rs: finished files under it.
use ftp_reolink.Base.{
  ℕ, ◌+◌, ◌≡◌, ◌≢◌, Bool, true, false, Option, none, some, List, [], ◌∷◌, Result, ok, err, length,
}
use ftp_reolink.Path.{FilePath, parent}
use ftp_reolink.Append.{OffsetVerdict, proceed, overlap, gap}
use ftp_reolink.Disk.{
  IoError, not_found, already_exists, failed, FileMetadata, Effect, create_dirs_effect,
  write_effect,
}
use ftp_reolink.Disk.Act.{Act, call, raise, ◌>>◌}
use ftp_reolink.Disk.Keeping.{
  Sound, Sound-wrap, Sound-bind, Sound-pure, Sound-raise, Sound-attempt, Sound-ignore,
  Sound-create_dirs, Sound-write, Sound-remove, Sound-link,
}
use ftp_reolink.Store.{
  StoreError, io, os, size_or_zero, discard, check_offset, create_parent, copy, copied, linked,
  finalize, refuse_if, overlaps, gaps, finalized,
}

module _ (Scratch : FilePath → Type 0) (f : FilePath) (i : ℕ) (b : List ℕ)
    (solid : Scratch f → ⊥) where
  abbrev pub Keeps : {E A : Type 0} → Act E A → Type 0
  Keeps = Sound Scratch f i b solid

  pub Keeps-os : {A : Type 0} (e : Effect A) → Keeps (call e) → Keeps (os e)
  Keeps-os e h = Sound-wrap Scratch f i b solid (call e) io h

  pub Keeps-refuse : (t : Bool) (e : StoreError) → Keeps (refuse_if t e)
  Keeps-refuse true e = Sound-raise Scratch f i b solid e
  Keeps-refuse false e = Sound-pure Scratch f i b solid tt

  pub Keeps-size : (r : Result IoError FileMetadata) → Keeps (size_or_zero r)
  Keeps-size (ok m) = Sound-pure Scratch f i b solid m.len
  Keeps-size (err not_found) = Sound-pure Scratch f i b solid 0
  Keeps-size (err already_exists) = Sound-raise Scratch f i b solid _
  Keeps-size (err failed) = Sound-raise Scratch f i b solid _

  pub Keeps-copy :
      (j : ℕ) (cs : List (List ℕ)) (breaks : Bool) (n : ℕ) → j ≢ i → Keeps (copy j cs breaks n)
  unfolding copy
  Keeps-copy j [] true n h = Sound-raise Scratch f i b solid failed
  Keeps-copy j [] false n h = Sound-pure Scratch f i b solid n
  Keeps-copy j (c ∷ cs) breaks n h =
      Sound-bind Scratch f i b solid (call (write_effect j c)) _
        (Sound-write Scratch f i b solid j c h) (λ u. Keeps-copy j cs breaks (n + length c) h)

  module _ (s : FilePath) (scratch : Scratch s) where
    Keeps-discard : Keeps (discard s)
    Keeps-discard = Sound-ignore Scratch f i b solid _ (Sound-remove Scratch f i b solid s scratch)

    discard-raise : {A : Type 0} (e : StoreError) → Keeps (discard s >> raise {A = A} e)
    discard-raise e =
        Sound-bind Scratch f i b solid (discard s) _ Keeps-discard
          (λ u. Sound-raise Scratch f i b solid e)

    pub Keeps-offset : (v : OffsetVerdict) → Keeps (check_offset s v)
    unfolding check_offset
    Keeps-offset proceed = Sound-pure Scratch f i b solid tt
    Keeps-offset overlap = discard-raise overlaps
    Keeps-offset gap = discard-raise gaps

    pub Keeps-parent : (o : Option FilePath) → parent s ≡ o → Keeps (create_parent s)
    unfolding create_parent
    Keeps-parent none e = rw (e, create_parent) (Sound-pure Scratch f i b solid tt)
    Keeps-parent (some p) e =
        rw (e, create_parent)
          (Keeps-os (create_dirs_effect p) (Sound-create_dirs Scratch f i b solid p))

    pub Keeps-copied : (r : Result IoError ℕ) → Keeps (copied s r)
    Keeps-copied (ok n) = Sound-pure Scratch f i b solid n
    Keeps-copied (err e) = discard-raise (io e)

    Keeps-linked : (n : ℕ) (r : Result IoError (Unit {0})) → Keeps (linked s n r)
    Keeps-linked n (ok u) =
        Sound-bind Scratch f i b solid (discard s) _ Keeps-discard
          (λ u. Sound-pure Scratch f i b solid n)
    Keeps-linked n (err already_exists) = discard-raise finalized
    Keeps-linked n (err not_found) = discard-raise (io not_found)
    Keeps-linked n (err failed) = discard-raise (io failed)

    pub Keeps-finalize : (p : FilePath) (n : ℕ) → Keeps (finalize s p n)
    unfolding finalize
    Keeps-finalize p n =
        Sound-bind Scratch f i b solid _ _
          (Sound-attempt Scratch f i b solid _ (Sound-link Scratch f i b solid s scratch p))
          (Keeps-linked n)
