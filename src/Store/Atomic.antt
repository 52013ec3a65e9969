-- ===== src/Store/Atomic.antt =====
-- About `store_stream` of src/backend.rs: the steps up to the choice of the offset, towards what it
-- publishes.
use mathlib.Core.Path.{subst}
use ftp_reolink.Base.{
  ℕ, ◌≡◌, ◌≢◌, refl, ap, sym, ◌∙◌, ◌⊎◌, inl, inr, Bool, true, false, none, some, List, [], ◌∷◌,
  ◌++◌, arith, Result, ok, err, nat_eq, length,
}
use ftp_reolink.Path.{FilePath, path_eq, parent}
use ftp_reolink.Append.{OffsetVerdict, proceed, overlap, gap, classify_offset}
use ftp_reolink.Append.Laws.{classify_offset_iff}
use ftp_reolink.Disk.{
  file, Disk, IoError, not_found, already_exists, failed, FileMetadata, Effect, node_at, make_dirs,
  exists_effect, metadata_effect, remove_effect,
}
use ftp_reolink.Disk.Laws.{node_at-erase}
use ftp_reolink.Disk.Act.{Turn, Act, call, raise, ◌>>=◌, ◌>>◌}
use ftp_reolink.Disk.Triple.{
  Stable, Ensures, Ensures-pure, Ensures-raise, Ensures-call, Ensures-bind, Ensures-ignore,
  Ensures-wrap_err, Ensures-absurd, Ensures-weaken,
}
use ftp_reolink.Store.{
  StoreError, io, Input, os, size_or_zero, discard, check_offset, refuse_if, overlaps, gaps,
  finalized,
}

-- `chunks`, one after the other.
abbrev pub joined : List (List ℕ) → List ℕ
joined [] = []
joined (c ∷ chunks) = c ++ joined chunks

-- Nobody else touches the disk; a call may fail only if `MayFail`.
abbrev pub Alone : Type 0 → Turn → Type 0
Alone MayFail t = ((d : Disk) → t.meanwhile d ≡ d) × (t.fault ≡ true → MayFail)

module _ (MayFail : Type 0) (p s : FilePath) (p_not_s : p ≢ s) (before : List ℕ) (start : ℕ)
    (input : Input) where
  -- Why a store may refuse or fail.
  pub data Reason : Type 0 where
    fault : MayFail → Reason
    offset : start ≢ length before → Reason
    broke : input.breaks ≡ true → Reason

  -- `before` is what the staging file holds, and is empty if there is none.
  abbrev pub Staged : Disk → Type 0
  Staged d =
      ((node_at s d.names ≡ none) × (before ≡ []))
      ⊎ ((j : ℕ) × (node_at s d.names ≡ some (file j)) × (d.bytes j ≡ before))

  -- The final name is free, and no file is in the way of its directories.
  pub record Ready (d : Disk) : Type 0 where
    pub free : node_at p d.names ≡ none
    pub staged : Staged d
    pub clear : (q : FilePath) → parent s ≡ some q → (make_dirs d.names [] q).1 ≡ true

  abbrev pub Free : Disk → Type 0
  Free d = (node_at p d.names ≡ none) × Reason

  abbrev pub R : Turn → Type 0
  R = Alone MayFail

  pub alone : (K : Disk → Type 0) → Stable R K
  alone K t r d k = subst K (sym (r.0 d)) k

  -- A failed call is a fault.
  pub excuse : (t : Turn) → R t → t.fault ≡ true → Reason
  excuse t r e = fault (r.1 e)

  -- The result is as `G` says, or the action failed with the name free and for a reason.
  abbrev pub Post : {E A : Type 0} → (A → Disk → Type 0) → Result E A → Disk → Type 0
  Post G (ok a) d = G a d
  Post G (err e) d = Free d

  abbrev pub Step : {E A : Type 0} → (Disk → Type 0) → Act E A → (A → Disk → Type 0) → Type 0
  Step K m G = Ensures R K m (Post G)

  pub and_then :
      {E A B : Type 0} (K : Disk → Type 0) (m : Act E A) (G : A → Disk → Type 0) (g : A → Act E B)
      (H : B → Disk → Type 0)
      → Step K m G
      → ((a : A) → Step (G a) (g a) H)
      → Step K (m >>= g) H
  and_then K m G g H hm hg = Ensures-bind m g hm hg (λ e d k. k)

  pub step_raise : {E A : Type 0} (e : E) (G : A → Disk → Type 0) → Step Free (raise {A = A} e) G
  step_raise e G = Ensures-raise e (λ d k. k)

  -- An effect that cannot fail on `K` but by a fault.
  pub step_os :
      {A : Type 0} (K : Disk → Type 0) (e : Effect A) (G : A → Disk → Type 0)
      → ((d : Disk) → K d → Post G (e d).0 (e d).1)
      → ((d : Disk) → K d → node_at p d.names ≡ none)
      → Step K (os e) G
  step_os K e G h free =
      Ensures-wrap_err (call e)
        (Ensures-call (Post G) e (alone K) h (λ t r q d k. (free d k, excuse t r q))) io
        (λ a d k. k) (λ a d k. k)

  pub node_at-remove : (d : Disk) → node_at p (remove_effect s d).1.names ≡ node_at p d.names
  unfolding remove_effect
  node_at-remove d = ground (arith, node_at-erase p s d.names, p_not_s)

  pub step_discard :
      (K : Disk → Type 0)
      → ((d : Disk) → K d → K (remove_effect s d).1)
      → Step {E = StoreError} K (discard s) (λ u d. K d)
  step_discard K h =
      Ensures-ignore _ (Ensures-call (λ r d. K d) (remove_effect s) (alone K) h (λ t r q d k. k))
        (λ r d k. k)

  pub discard-raise :
      {A : Type 0} (e : StoreError) (G : A → Disk → Type 0)
      → Step Free (discard s >> raise {A = A} e) G
  discard-raise e G =
      and_then Free (discard s) (λ u d. Free d) _ G
        (step_discard Free (λ d k. (node_at-remove d ∙ k.0, k.1))) (λ u. step_raise e G)

  pub exists-Ready : (d : Disk) → Ready d → (exists_effect p d) ≡ (ok false, d)
  unfolding exists_effect
  exists-Ready d k = ground (arith, k.free)

  pub step_refuse :
      (present : Bool)
      → Step (λ d. Ready d × (present ≡ false)) (refuse_if present finalized) (λ u d. Ready d)
  step_refuse true = Ensures-absurd _ (λ d k. cc (k.1))
  step_refuse false = Ensures-pure tt (λ d k. k.0)

  abbrev pub Measured : Result IoError FileMetadata → Type 0
  Measured (ok m) = m.len ≡ length before
  Measured (err not_found) = before ≡ []
  Measured (err already_exists) = Reason
  Measured (err failed) = Reason

  pub measures :
      (d : Disk) → Ready d → (Ready (metadata_effect s d).1) × Measured (metadata_effect s d).0
  unfolding metadata_effect
  measures d k = elim k.staged [
    | inl (absent, empty) ↦ rw (absent, metadata_effect) (k, empty)
    | inr (j, there, content) ↦ rw (there, metadata_effect) (k, ap length content)
  ]

  pub step_size :
      (r : Result IoError FileMetadata)
      → Step (λ d. Ready d × Measured r) (size_or_zero r) (λ n d. Ready d × (n ≡ length before))
  step_size (ok m) = Ensures-pure m.len (λ d k. k)
  step_size (err not_found) = Ensures-pure 0 (λ d k. (k.0, sym (ap length k.1)))
  step_size (err already_exists) = Ensures-raise _ (λ d k. (k.0.free, k.1))
  step_size (err failed) = Ensures-raise _ (λ d k. (k.0.free, k.1))

  pub step_offset :
      (n : ℕ)
      → Step
          (λ d. Ready d × (n ≡ length before))
          (check_offset s (classify_offset start n))
          (λ u d. Ready d × (start ≡ length before))
  unfolding check_offset
  step_offset n = go (classify_offset start n) refl
    where
      off :
          (v : OffsetVerdict)
          → classify_offset start n ≡ v
          → v ≢ proceed
          → n ≡ length before
          → start ≢ length before
      off v e h k q = h (sym e ∙ (classify_offset_iff start n).0.1 (q ∙ sym k))

      stops :
          (v : OffsetVerdict)
          → classify_offset start n ≡ v
          → v ≢ proceed
          → (x : StoreError)
          → Step
              (λ d. Ready d × (n ≡ length before))
              (discard s >> raise {A = Unit {0}} x)
              (λ u d. Ready d × (start ≡ length before))
      stops v e h x =
          Ensures-weaken _ (λ d k. (k.0.free, offset (off v e h k.1)))
            (discard-raise x (λ u d. Ready d × (start ≡ length before)))

      go :
          (v : OffsetVerdict)
          → classify_offset start n ≡ v
          → Step
              (λ d. Ready d × (n ≡ length before))
              (check_offset s v)
              (λ u d. Ready d × (start ≡ length before))
      go proceed e = Ensures-pure tt (λ d k. (k.0, (classify_offset_iff start n).0.0 e ∙ k.1))
      go overlap e = stops overlap e (λ q. cc) overlaps
      go gap e = stops gap e (λ q. cc) gaps
