-- ===== src/Store/Publish.antt =====
-- About `store_stream` of src/backend.rs: the steps from the directories to the final name.
use mathlib.Core.List.{append_assoc, append-nil}
use ftp_reolink.Base.{
  ℕ, ◌+◌, ◌<◌, ◌≡◌, ◌≢◌, refl, ap, ◌∙◌, inl, inr, Bool, true, false, Option, none, some, List, [],
  ◌∷◌, ◌++◌, arith, Result, ok, err, nat_eq, length,
}
use ftp_reolink.Path.{FilePath, path_eq, parent}
use ftp_reolink.Path.Laws.{length-parent}
use ftp_reolink.Disk.{
  file, Disk, IoError, not_found, already_exists, failed, node_at, make_dirs, remove_effect,
  create_dirs_effect, open_effect, write_effect, link_effect,
}
use ftp_reolink.Disk.Laws.{node_at-cons, make_dirs_long}
use ftp_reolink.Disk.Act.{Act, call, attempt}
use ftp_reolink.Disk.Triple.{
  Ensures-pure, Ensures-raise, Ensures-call, Ensures-attempt, Ensures-strengthen,
}
use ftp_reolink.Store.{
  StoreError, io, Input, discard, create_parent, copy, copied, linked, finalize, finalized,
  total_length,
}
use ftp_reolink.Store.Atomic.{
  joined, Reason, broke, Staged, Ready, Free, alone, Post, Step, and_then, step_os, step_discard,
  discard-raise, node_at-remove, excuse,
}

module _ (MayFail : Type 0) (p s : FilePath) (p_not_s : p ≢ s) (before : List ℕ) (start : ℕ)
    (input : Input) (same_length : length s ≡ length p) where
  abbrev pub St : {E A : Type 0} → (Disk → Type 0) → Act E A → (A → Disk → Type 0) → Type 0
  St = Step MayFail p s p_not_s before start input

  -- The directories are there, and the offset was right.
  abbrev pub Half : Disk → Type 0
  Half d =
      (node_at p d.names ≡ none)
      × Staged MayFail p s p_not_s before start input d
      × (start ≡ length before)

  -- The staging file is inode `j` and holds `b`.
  abbrev pub Writing : ℕ → List ℕ → Disk → Type 0
  Writing j b d =
      (node_at p d.names ≡ none)
      × (node_at s d.names ≡ some (file j))
      × (d.bytes j ≡ b)
      × (start ≡ length before)

  parent_made :
      (q : FilePath) (d : Disk)
      → parent s ≡ some q
      → Ready MayFail p s p_not_s before start input d × (start ≡ length before)
      → Post MayFail p s p_not_s before start input {E = IoError}
          (λ (u : Unit {0}) d. Half d)
          (create_dirs_effect q d).0
          (create_dirs_effect q d).1
  unfolding create_dirs_effect
  parent_made q d e k =
      rw (k.0.clear q e)
        (longer p (omega (arith, length-parent s q e)) ∙ k.0.free, kept k.0.staged, k.1)
    where
      longer :
          (x : FilePath)
          → length q < length x
          → node_at x (make_dirs d.names [] q).0 ≡ node_at x d.names
      longer x h = make_dirs_long x d.names [] q (omega arith)

      kept :
          Staged MayFail p s p_not_s before start input d
          → Staged MayFail p s p_not_s before start input
              (record d { names = (make_dirs d.names [] q).0 })
      kept (inl (a, b)) = inl (longer s (omega (arith, length-parent s q e)) ∙ a, b)
      kept (inr (j, a, b)) = inr (j, longer s (omega (arith, length-parent s q e)) ∙ a, b)

  pub step_parent :
      (o : Option FilePath)
      → parent s ≡ o
      → St
          (λ d. Ready MayFail p s p_not_s before start input d × (start ≡ length before))
          (create_parent s)
          (λ u d. Half d)
  unfolding create_parent
  step_parent none e = rw (e, create_parent) (Ensures-pure tt (λ d k. (k.0.free, k.0.staged, k.1)))
  step_parent (some q) e =
      rw (e, create_parent)
        (step_os MayFail p s p_not_s before start input _ (create_dirs_effect q) (λ u d. Half d)
          (λ d k. parent_made q d e k) (λ d k. k.0.free))

  pub opened :
      (d : Disk)
      → Half d
      → Post MayFail p s p_not_s before start input {E = IoError}
          (λ j d. Writing j before d)
          (open_effect true s d).0
          (open_effect true s d).1
  unfolding open_effect
  opened d (free, inl (absent, empty), st) =
      rw (absent, open_effect)
        (
          ground (arith, node_at-cons p s (file d.next) d.names, p_not_s),
          ground (arith, node_at-cons s s (file d.next) d.names),
          ground arith,
          st,
        )
  opened d (free, inr (j, there, content), st) = rw (there, open_effect) (free, there, content, st)

  written :
      (j : ℕ) (b c : List ℕ) (d : Disk)
      → Writing j b d
      → Post MayFail p s p_not_s before start input {E = IoError}
          (λ (u : Unit {0}) d. Writing j (b ++ c) d)
          (write_effect j c d).0
          (write_effect j c d).1
  unfolding write_effect
  written j b c d k = (k.0, k.1, ground arith, k.3)

  abbrev pub Copied : ℕ → ℕ → List ℕ → List (List ℕ) → Bool → ℕ → Disk → Type 0
  Copied j n b cs breaks m d =
      Writing j (b ++ joined cs) d × (m ≡ n + total_length cs) × (breaks ≡ false)

  regroup :
      (j n : ℕ) (b c : List ℕ) (cs : List (List ℕ)) (breaks : Bool) (x : Result IoError ℕ)
      (d : Disk)
      → Post MayFail p s p_not_s before start input (Copied j (n + length c) (b ++ c) cs breaks) x d
      → Post MayFail p s p_not_s before start input (Copied j n b (c ∷ cs) breaks) x d
  unfolding total_length
  regroup j n b c cs breaks (ok m) d k =
      ((k.0.0, k.0.1, k.0.2 ∙ append_assoc b c (joined cs), k.0.3), omega (arith, k.1), k.2)
  regroup j n b c cs breaks (err e) d k = k

  pub step_copy :
      (j : ℕ) (cs : List (List ℕ)) (breaks : Bool) (n : ℕ) (b : List ℕ)
      → (breaks ≡ true → Reason MayFail p s p_not_s before start input)
      → St (Writing j b) (copy j cs breaks n) (Copied j n b cs breaks)
  unfolding copy total_length
  step_copy j [] true n b h = Ensures-raise failed (λ d k. (k.0, h refl))
  step_copy j [] false n b h = Ensures-pure n (λ d k. (rw append-nil k, omega arith, refl))
  step_copy j (c ∷ cs) breaks n b h =
      and_then MayFail p s p_not_s before start input (Writing j b) (call (write_effect j c))
        (λ u d. Writing j (b ++ c) d) _ _
        (Ensures-call _ (write_effect j c)
          (alone MayFail p s p_not_s before start input (Writing j b)) (λ d k. written j b c d k)
          (λ t r q d k. (k.0, excuse MayFail p s p_not_s before start input t r q)))
        (λ u.
          Ensures-strengthen _ (step_copy j cs breaks (n + length c) (b ++ c) h)
            (regroup j n b c cs breaks))

  abbrev pub Sent : ℕ → ℕ → Disk → Type 0
  Sent j m d =
      Writing j (before ++ joined input.chunks) d
      × (m ≡ total_length input.chunks)
      × (input.breaks ≡ false)

  abbrev pub Answered : ℕ → Result IoError ℕ → Disk → Type 0
  Answered j (ok m) d = Sent j m d
  Answered j (err e) d = Free MayFail p s p_not_s before start input d

  answers :
      (j : ℕ) (r : Result IoError ℕ) (d : Disk)
      → Post MayFail p s p_not_s before start input
          (Copied j 0 before input.chunks input.breaks)
          r
          d
      → Answered j r d
  answers j (ok m) d k = (k.0, omega (arith, k.1), k.2)
  answers j (err e) d k = k

  pub step_answer :
      (j : ℕ)
      → St {E = StoreError}
          (Writing j before)
          (attempt (copy j input.chunks input.breaks 0))
          (λ r d. Answered j r d)
  step_answer j =
      Ensures-attempt _ (step_copy j input.chunks input.breaks 0 before broke) (answers j)

  pub step_copied :
      (j : ℕ) (r : Result IoError ℕ) → St (Answered j r) (copied s r) (λ m d. Sent j m d)
  step_copied j (ok m) = Ensures-pure m (λ d k. k)
  step_copied j (err e) =
      discard-raise MayFail p s p_not_s before start input (io e) (λ m d. Sent j m d)

  -- The final name leads to the staged bytes followed by all chunks, the count is theirs, and the
  -- stream did not break off.
  pub record Published (n : ℕ) (d : Disk) : Type 0 where
    pub inode : ℕ
    pub there : node_at p d.names ≡ some (file inode)
    pub content : d.bytes inode ≡ before ++ joined input.chunks
    pub counted : n ≡ total_length input.chunks
    pub at_end : start ≡ length before
    pub whole : input.breaks ≡ false

  abbrev pub Linked : ℕ → Result IoError (Unit {0}) → Disk → Type 0
  Linked n (ok u) d = Published n d
  Linked n (err e) d = Free MayFail p s p_not_s before start input d

  links : (j n : ℕ) (d : Disk) → Sent j n d → Linked n (link_effect s p d).0 (link_effect s p d).1
  unfolding link_effect
  links j n d k =
      rw (k.0.0, k.0.1, link_effect)
        (record {
          inode = j;
          there = ground (arith, node_at-cons p p (file j) d.names);
          content = k.0.2;
          counted = k.1;
          at_end = k.0.3;
          whole = k.2;
        })

  bytes-remove : (d : Disk) → (remove_effect s d).1.bytes ≡ d.bytes
  unfolding remove_effect
  bytes-remove d = ground arith

  Published-after : (n : ℕ) (d : Disk) → Published n d → Published n (remove_effect s d).1
  Published-after n d k = record {
    inode = k.inode;
    there = node_at-remove MayFail p s p_not_s before start input d ∙ k.there;
    content = ap (λ (f : ℕ → List ℕ). f k.inode) (bytes-remove d) ∙ k.content;
    counted = k.counted;
    at_end = k.at_end;
    whole = k.whole;
  }

  step_linked :
      (n : ℕ) (r : Result IoError (Unit {0}))
      → St (Linked n r) (linked s n r) (λ m d. Published m d)
  step_linked n (ok u) =
      and_then MayFail p s p_not_s before start input _ (discard s) (λ u d. Published n d) _ _
        (step_discard MayFail p s p_not_s before start input (Published n) (Published-after n))
        (λ u. Ensures-pure n (λ d k. k))
  step_linked n (err already_exists) =
      discard-raise MayFail p s p_not_s before start input finalized _
  step_linked n (err not_found) =
      discard-raise MayFail p s p_not_s before start input (io not_found) _
  step_linked n (err failed) = discard-raise MayFail p s p_not_s before start input (io failed) _

  pub step_finalize : (j n : ℕ) → St (Sent j n) (finalize s p n) (λ m d. Published m d)
  unfolding finalize
  step_finalize j n =
      and_then MayFail p s p_not_s before start input _ (attempt (call (link_effect s p)))
        (λ r d. Linked n r d) _ _
        (Ensures-attempt _
          (Ensures-call (λ r d. Linked n r d) (link_effect s p)
            (alone MayFail p s p_not_s before start input (Sent j n)) (links j n)
            (λ t r q d k. (k.0.0, excuse MayFail p s p_not_s before start input t r q)))
          (λ r d k. k))
        (λ r. step_linked n r)
