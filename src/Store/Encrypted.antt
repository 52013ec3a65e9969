-- ===== src/Store/Encrypted.antt =====
-- About `store_encrypted` of src/backend.rs: what it ends with.
use ftp_reolink.Base.{
  String, ℕ, ◌<◌, ◌≡◌, ◌⊎◌, inl, inr, refl, ◌∙◌, Bool, true, false, Option, none, some, List, [],
  Result, ok, err, All, length, arith,
}
use ftp_reolink.Path.{FilePath, path_eq, parent, file_name}
use ftp_reolink.Path.Laws.{length-parent}
use ftp_reolink.Append.{staging_path}
use ftp_reolink.Append.Laws.{staging_path-ne}
use ftp_reolink.Disk.{
  file, Disk, IoError, node_at, make_dirs, exists_effect, create_dirs_effect, open_effect,
  not_found, already_exists, failed, link_effect,
}
use ftp_reolink.Disk.Laws.{node_at-cons, make_dirs_long}
use ftp_reolink.Disk.Act.{World, Act, call, pure, raise, ignore, attempt, wrap_err, ◌>>=◌}
use ftp_reolink.Disk.Triple.{
  Ensures-pure, Ensures-absurd, Ensures-call, Ensures-attempt, Ensures-wrap_err,
}
use ftp_reolink.Store.{
  StoreError, io, Input, flush_effect, refuse_if, create_parent, copy, finalize, linked,
  present_or_false, finalized, total_length, store_encrypted,
}
use ftp_reolink.Store.Atomic.{
  Alone, Reason, joined, fault, offset, broke, Free, Post, Step, step_os, alone, excuse,
}
use ftp_reolink.Store.Atomic as Atomic
use ftp_reolink.Store.Outcome.{named_length}
use ftp_reolink.Store.Publish as Publish
use ftp_reolink.Store.Publish.{Published}

module _ (MayFail : Type 0) (p : FilePath) (same_length : length (staging_path p) ≡ length p)
    (encrypt : List (List ℕ) → Bool → List (List ℕ) × Bool) (input : Input) where
  abbrev s : FilePath
  s = staging_path p

  -- What age writes, as the stream that is stored.
  abbrev pub sealed : Input
  sealed = record {
    chunks = (encrypt input.chunks input.breaks).0;
    breaks = (encrypt input.chunks input.breaks).1;
  }

  -- The final name is free, the staging name is free or that of a file, and no file is in the way of
  -- the directories.
  pub record Open (d : Disk) : Type 0 where
    pub free : node_at p d.names ≡ none
    pub staged : (node_at s d.names ≡ none) ⊎ ((j : ℕ) × (node_at s d.names ≡ some (file j)))
    pub clear : (q : FilePath) → parent s ≡ some q → (make_dirs d.names [] q).1 ≡ true

  abbrev Half : Disk → Type 0
  Half d =
      (node_at p d.names ≡ none)
      × ((node_at s d.names ≡ none) ⊎ ((j : ℕ) × (node_at s d.names ≡ some (file j))))

  abbrev St : {E A : Type 0} → (Disk → Type 0) → Act E A → (A → Disk → Type 0) → Type 0
  St = Step MayFail p s (staging_path-ne p) [] 0 sealed

  and_then :
      {E A B : Type 0} (K : Disk → Type 0) (m : Act E A) (G : A → Disk → Type 0) (g : A → Act E B)
      (H : B → Disk → Type 0)
      → St K m G
      → ((a : A) → St (G a) (g a) H)
      → St K (m >>= g) H
  and_then = Atomic.and_then MayFail p s (staging_path-ne p) [] 0 sealed

  abbrev Looked : Result IoError Bool → Disk → Type 0
  Looked r d = Open d × (present_or_false r ≡ false)

  step_look : St {E = StoreError} Open (attempt (call (exists_effect p))) Looked
  unfolding exists_effect
  step_look =
      Ensures-attempt _
        (Ensures-call Looked (exists_effect p)
          (alone MayFail p s (staging_path-ne p) [] 0 sealed Open) (λ d k. rw k.free (k, refl))
          (λ t r q d k. (k, refl)))
        (λ r d k. k)

  step_refuse :
      (present : Bool)
      → St (λ d. Open d × (present ≡ false)) (refuse_if present finalized) (λ u d. Open d)
  step_refuse true = Ensures-absurd _ (λ d k. cc (k.1))
  step_refuse false = Ensures-pure tt (λ d k. k.0)

  parent_made :
      (q : FilePath) (d : Disk)
      → parent s ≡ some q
      → Open d
      → Post MayFail p s
          (staging_path-ne p)
          []
          0
          sealed
          {E = IoError}
          (λ (u : Unit {0}) d. Half d)
          (create_dirs_effect q d).0
          (create_dirs_effect q d).1
  unfolding create_dirs_effect
  parent_made q d e k =
      rw (k.clear q e) (longer p (omega (arith, length-parent s q e)) ∙ k.free, kept k.staged)
    where
      longer :
          (x : FilePath)
          → length q < length x
          → node_at x (make_dirs d.names [] q).0 ≡ node_at x d.names
      longer x h = make_dirs_long x d.names [] q (omega arith)

      kept :
          (node_at s d.names ≡ none) ⊎ ((j : ℕ) × (node_at s d.names ≡ some (file j)))
          → (node_at s (make_dirs d.names [] q).0 ≡ none)
            ⊎ ((j : ℕ) × (node_at s (make_dirs d.names [] q).0 ≡ some (file j)))
      kept (inl a) = inl (longer s (omega (arith, length-parent s q e)) ∙ a)
      kept (inr (j, a)) = inr (j, longer s (omega (arith, length-parent s q e)) ∙ a)

  step_parent : (o : Option FilePath) → parent s ≡ o → St Open (create_parent s) (λ u d. Half d)
  unfolding create_parent
  step_parent none e = rw (e, create_parent) (Ensures-pure tt (λ d k. (k.free, k.staged)))
  step_parent (some q) e =
      rw (e, create_parent)
        (step_os MayFail p s (staging_path-ne p) [] 0 sealed _ (create_dirs_effect q)
          (λ u d. Half d) (λ d k. parent_made q d e k) (λ d k. k.free))

  abbrev Writing : ℕ → List ℕ → Disk → Type 0
  Writing = Publish.Writing MayFail p s (staging_path-ne p) [] 0 sealed same_length

  -- Whatever was staged is gone.
  opened :
      (d : Disk)
      → Half d
      → Post MayFail p s
          (staging_path-ne p)
          []
          0
          sealed
          {E = IoError}
          (λ j d. Writing j [] d)
          (open_effect false s d).0
          (open_effect false s d).1
  unfolding open_effect
  opened d (free, inl absent) =
      rw (absent, open_effect)
        (
          ground (arith, node_at-cons p s (file d.next) d.names, staging_path-ne p),
          ground (arith, node_at-cons s s (file d.next) d.names),
          ground arith,
          refl,
        )
  opened d (free, inr (j, there)) = rw (there, open_effect) (free, there, ground arith, refl)

  abbrev Sent : ℕ → ℕ → Disk → Type 0
  Sent = Publish.Sent MayFail p s (staging_path-ne p) [] 0 sealed same_length

  -- The count is only passed on.
  abbrev recount : ℕ → Result StoreError ℕ → Result StoreError ℕ
  recount n (ok m) = ok n
  recount n (err e) = err e

  linked_count :
      (m n : ℕ) (r : Result IoError (Unit {0})) (w : World)
      → linked s n r w ≡ (recount n (linked s m r w).0, (linked s m r w).1)
  unfolding ◌>>=◌ ignore pure raise
  linked_count m n (ok u) w = refl
  linked_count m n (err already_exists) w = refl
  linked_count m n (err not_found) w = refl
  linked_count m n (err failed) w = refl

  finalize_count :
      (m n : ℕ) (w : World)
      → finalize s p n w ≡ (recount n (finalize s p m w).0, (finalize s p m w).1)
  unfolding finalize ◌>>=◌ attempt
  finalize_count m n w = linked_count m n (call (link_effect s p) w).0 (call (link_effect s p) w).1

  -- The final name leads to exactly what age wrote, all of it, and the count is that of the plain
  -- bytes.
  pub record Stored (n : ℕ) (d : Disk) : Type 0 where
    pub inode : ℕ
    pub there : node_at p d.names ≡ some (file inode)
    pub content : d.bytes inode ≡ joined sealed.chunks
    pub counted : n ≡ total_length input.chunks
    pub whole : sealed.breaks ≡ false

  stores :
      (x : Result StoreError ℕ) (d : Disk)
      → Post MayFail p s
          (staging_path-ne p)
          []
          0
          sealed
          (λ m d. Published MayFail p s (staging_path-ne p) [] 0 sealed same_length m d)
          x
          d
      → Post MayFail p s
          (staging_path-ne p)
          []
          0
          sealed
          Stored
          (recount (total_length input.chunks) x)
          d
  stores (ok m) d k = record {
    inode = k.inode;
    there = k.there;
    content = k.content;
    counted = refl;
    whole = k.whole;
  }
  stores (err e) d k = k

  step_finalize : (j m : ℕ) → St (Sent j m) (finalize s p (total_length input.chunks)) Stored
  step_finalize j m = record {
    at = λ w r k.
        let h =
          (Publish.step_finalize MayFail p s (staging_path-ne p) [] 0 sealed same_length j m).at w r
            k in
        rw (finalize_count m (total_length input.chunks) w) (h.0, stores _ _ h.1);
  }

  sends :
      (j m : ℕ) (d : Disk)
      → Publish.Copied MayFail p s
          (staging_path-ne p)
          []
          0
          sealed
          same_length
          j
          0
          []
          sealed.chunks
          sealed.breaks
          m
          d
      → Sent j m d
  sends j m d k = (k.0, omega (arith, k.1), k.2)

  step_copy :
      (j : ℕ) → St (Writing j []) (wrap_err io (copy j sealed.chunks sealed.breaks 0)) (Sent j)
  step_copy j =
      Ensures-wrap_err _
        (Publish.step_copy MayFail p s (staging_path-ne p) [] 0 sealed same_length j sealed.chunks
          sealed.breaks 0 [] broke)
        io (λ m d k. sends j m d k) (λ e d k. k)

  store_encrypted_step : St Open (store_encrypted encrypt p input) Stored
  unfolding store_encrypted
  store_encrypted_step = and_then Open _ _ _ _ step_look λ present.
      and_then _ _ (λ u d. Open d) _ _ (step_refuse (present_or_false present))
        λ _. and_then Open _ _ _ _ (step_parent (parent s) refl) λ _.
          and_then _ _ _ _ _
            (step_os MayFail p s (staging_path-ne p) [] 0 sealed _ (open_effect false s)
              (λ j d. Writing j [] d) opened (λ d k. k.0))
            λ j. and_then _ _ _ _ _ (step_copy j) λ m.
              and_then _ _ (λ u d. Sent j m d) _ _
                (step_os MayFail p s (staging_path-ne p) [] 0 sealed _ flush_effect
                  (λ u d. Sent j m d) (λ d k. k) (λ d k. k.0.0))
                λ _. step_finalize j m

-- What an encrypted store ends with.
abbrev pub Ended :
    (p : FilePath)
    → length (staging_path p) ≡ length p
    → (List (List ℕ) → Bool → List (List ℕ) × Bool)
    → Input
    → Result StoreError ℕ
    → Disk
    → Type 0
Ended p h encrypt input (ok n) d = Stored Unit p h encrypt input n d
Ended p h encrypt input (err e) d = node_at p d.names ≡ none

-- If nobody else touches the disk, the final name is free, the staging name is free or that of a file,
-- whatever it holds, and no file is in the way of the directories, then whatever calls fail and
-- wherever the encryption breaks off: either the encrypted store returns the number of plain bytes
-- sent and the final name leads to exactly what age wrote, which did not break off; or it returns an
-- error and the final name is still free.
pub store_encrypted_atomic :
    (encrypt : List (List ℕ) → Bool → List (List ℕ) × Bool) (p : FilePath) (name : String)
    (input : Input) (w : World)
    → (named : file_name p ≡ some name) → All (Alone Unit) w.turns
    → Open Unit p (named_length p named) encrypt input w.disk
    → Ended p
        (named_length p named)
        encrypt
        input
        (store_encrypted encrypt p input w).0
        (store_encrypted encrypt p input w).1.disk
store_encrypted_atomic encrypt p name input w named r k =
    ended _ _ ((store_encrypted_step Unit p (named_length p named) encrypt input).at w r k).1
  where
    ended :
        (x : Result StoreError ℕ) (d : Disk)
        → Post Unit p
            (staging_path p)
            (staging_path-ne p)
            []
            0
            (sealed Unit p (named_length p named) encrypt input)
            (Stored Unit p (named_length p named) encrypt input)
            x
            d
        → Ended p (named_length p named) encrypt input x d
    ended (ok n) d h = h
    ended (err e) d h = h.0
