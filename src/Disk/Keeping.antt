-- ===== src/Disk/Keeping.antt =====
-- A finished file on the disk, and the actions that leave it alone. Some names are scratch: they
-- are written, emptied and removed. The finished file is at none of them and shares its inode with
-- none.
use native.Mathlib.Decide.{ℕ_discrete}
use mathlib.Core.Path.{subst}
use ftp_reolink.Base.{
  ℕ, ◌<◌, ◌≡◌, ◌≢◌, refl, sym, Bool, some, List, [], arith, Result, ok, nat_eq, Option-cases, inl,
  inr,
}
use ftp_reolink.Path.{FilePath, path_eq}
use ftp_reolink.Disk.{
  file, dir, Disk, IoError, Effect, node_at, exists_effect, metadata_effect, remove_effect,
  create_dirs_effect, open_effect, write_effect, link_effect,
}
use ftp_reolink.Disk.Laws.{node_at-erase, node_at-cons, make_dirs_taken, make_dirs_file}
use ftp_reolink.Disk.Act.{Turn, Act, call, pure, raise, wrap_err, attempt, ignore, ◌>>=◌}
use ftp_reolink.Disk.Triple.{
  Ensures, Ensures-pure, Ensures-raise, Ensures-call, Ensures-bind, Ensures-attempt, Ensures-ignore,
  Ensures-wrap_err, Ensures-absurd, Ensures-weaken,
}

-- The finished file `f` is there, at inode `i` with content `b`, and no scratch name leads to `i`.
pub record Kept (Scratch : FilePath → Type 0) (f : FilePath) (i : ℕ) (b : List ℕ) (d : Disk)
    : Type 0 where
  pub there : node_at f d.names ≡ some (file i)
  pub content : d.bytes i ≡ b
  pub allocated : i < d.next
  pub apart : (q : FilePath) → Scratch q → node_at q d.names ≢ some (file i)

module _ (Scratch : FilePath → Type 0) (f : FilePath) (i : ℕ) (b : List ℕ)
    (solid : Scratch f → ⊥) where
  abbrev pub K : Disk → Type 0
  K = Kept Scratch f i b

  -- What the other sessions do leaves the file kept.
  abbrev pub Respects : Turn → Type 0
  Respects t = (d : Disk) → K d → K (t.meanwhile d)

  -- The action leaves the file kept, however it ends.
  abbrev pub Sound : {E A : Type 0} → Act E A → Type 0
  Sound m = Ensures Respects K m (λ r d. K d)

  create_dirs-Kept : (p : FilePath) (d : Disk) → K d → K (create_dirs_effect p d).1
  unfolding create_dirs_effect
  create_dirs-Kept p d k = record {
    there = make_dirs_taken f (file i) d.names [] p k.there;
    content = k.content;
    allocated = k.allocated;
    apart = λ q z e. k.apart q z (make_dirs_file q i d.names [] p e);
  }

  write-Kept : (j : ℕ) (c : List ℕ) (d : Disk) → j ≢ i → K d → K (write_effect j c d).1
  unfolding write_effect
  write-Kept j c d h k = record {
    there = k.there;
    content = ground (arith, k.content);
    allocated = k.allocated;
    apart = k.apart;
  }

  pub Sound-call : {A : Type 0} (e : Effect A) → ((d : Disk) → K d → K (e d).1) → Sound (call e)
  Sound-call e h = Ensures-call (λ r d. K d) e (λ t r. r) h (λ t r q d k. k)

  -- An effect that only looks.
  pub Sound-look : {A : Type 0} (e : Effect A) → ((d : Disk) → (e d).1 ≡ d) → Sound (call e)
  Sound-look e h = Sound-call e (λ d k. subst K (sym (h d)) k)

  pub Sound-wrap : {E F A : Type 0} (m : Act E A) (g : E → F) → Sound m → Sound (wrap_err g m)
  Sound-wrap m g h = Ensures-wrap_err m h g (λ a d k. k) (λ a d k. k)

  pub Sound-bind :
      {E A B : Type 0} (m : Act E A) (g : A → Act E B)
      → Sound m
      → ((a : A) → Sound (g a))
      → Sound (m >>= g)
  Sound-bind m g hm hg = Ensures-bind m g hm hg (λ e d k. k)

  pub Sound-pure : {E A : Type 0} (a : A) → Sound (pure {E = E} a)
  Sound-pure a = Ensures-pure a (λ d k. k)

  pub Sound-raise : {E A : Type 0} (e : E) → Sound (raise {A = A} e)
  Sound-raise e = Ensures-raise e (λ d k. k)

  pub Sound-attempt : {E F A : Type 0} (m : Act E A) → Sound m → Sound (attempt {F = F} m)
  Sound-attempt m h = Ensures-attempt m h (λ r d k. k)

  pub Sound-ignore : {E F A : Type 0} (m : Act E A) → Sound m → Sound (ignore {F = F} m)
  Sound-ignore m h = Ensures-ignore m h (λ r d k. k)

  looks : (q : FilePath) (d : Disk) → (metadata_effect q d).1 ≡ d
  unfolding metadata_effect
  looks q d = ground arith

  pub Sound-metadata : (q : FilePath) → Sound (call (metadata_effect q))
  Sound-metadata q = Sound-look (metadata_effect q) (looks q)

  pub Sound-exists : (q : FilePath) → Sound (call (exists_effect q))
  unfolding exists_effect
  Sound-exists q = Sound-look (exists_effect q) (λ d. refl)

  pub Sound-create_dirs : (p : FilePath) → Sound (call (create_dirs_effect p))
  Sound-create_dirs p = Sound-call (create_dirs_effect p) (create_dirs-Kept p)

  pub Sound-write : (j : ℕ) (c : List ℕ) → j ≢ i → Sound (call (write_effect j c))
  Sound-write j c h = Sound-call (write_effect j c) (λ d k. write-Kept j c d h k)

  module _ (s : FilePath) (scratch : Scratch s) where
    f_not_s : f ≢ s
    f_not_s e = solid (subst Scratch (sym e) scratch)

    remove-Kept : (d : Disk) → K d → K (remove_effect s d).1
    unfolding remove_effect
    remove-Kept d k = record {
      there = ground (arith, k.there, f_not_s, node_at-erase f s d.names);
      content = ground (arith, k.content);
      allocated = ground (arith, k.allocated);
      apart = λ q z e. ground (arith, k.apart q z, node_at-erase q s d.names);
    }

    pub Sound-remove : Sound (call (remove_effect s))
    Sound-remove = Sound-call (remove_effect s) remove-Kept

    open-Kept : (keep : Bool) (d : Disk) → K d → K (open_effect keep s d).1
    unfolding open_effect
    open-Kept keep d k = record {
      there = ground (arith, k.there, f_not_s, node_at-cons f s (file d.next) d.names);
      content = ground (arith, k.content, k.allocated, k.apart s scratch);
      allocated = ground (arith, k.allocated);
      apart =
          λ q z e. ground (arith, k.apart q z, k.allocated, node_at-cons q s (file d.next) d.names);
    }

    opened_apart : (keep : Bool) (d : Disk) (j : ℕ) → K d → (open_effect keep s d).0 ≡ ok j → j ≢ i
    unfolding open_effect
    opened_apart keep d j k e = ground (arith, k.apart s scratch, k.allocated)

    -- The new name leads to an inode that a scratch name has, which is not `i`.
    link-Kept : (p : FilePath) (d : Disk) → K d → K (link_effect s p d).1
    unfolding link_effect
    link-Kept p d k = elim (Option-cases (node_at s d.names)) [
      | inl e ↦ subst K (ground arith) k
      | inr (dir, e) ↦ subst K (ground arith) k
      | inr (file j, e) ↦ record {
        there = ground (arith, k.there, node_at-cons f p (file j) d.names);
        content = ground (arith, k.content);
        allocated = ground (arith, k.allocated);
        apart = λ q z h.
            ground (arith, k.apart q z, k.apart s scratch, node_at-cons q p (file j) d.names);
      }
    ]

    pub Sound-link : (p : FilePath) → Sound (call (link_effect s p))
    Sound-link p = Sound-call (link_effect s p) (link-Kept p)

    -- What follows the opening of a scratch file may rely on its being another inode.
    abbrev Opened : {E : Type 0} → Result E ℕ → Disk → Type 0
    Opened r d = K d × ((j : ℕ) → r ≡ ok j → j ≢ i)

    pub open_then :
        {E A : Type 0} (wrap : IoError → E) (keep : Bool) (g : ℕ → Act E A)
        → ((j : ℕ) → j ≢ i → Sound (g j))
        → Sound (wrap_err wrap (call (open_effect keep s)) >>= g)
    open_then {E} wrap keep g h =
        Ensures-bind (wrap_err wrap (call (open_effect keep s))) g opens rest (λ e d k. k.0)
      where
        opens : Ensures Respects K (wrap_err wrap (call (open_effect keep s))) (Opened {E = E})
        opens =
            Ensures-wrap_err _
              (Ensures-call (Opened {E = IoError}) (open_effect keep s) (λ t r. r)
                (λ d k. (open-Kept keep d k, λ j e. opened_apart keep d j k e))
                (λ t r q d k. (k, λ j e. cc)))
              wrap (λ a d k. (k.0, λ j e. k.1 j (ground arith))) (λ e d k. (k.0, λ j q. cc))

        rest : (j : ℕ) → Ensures Respects (Opened {E = E} (ok j)) (g j) (λ r d. K d)
        rest j = elim (ℕ_discrete j i) [
          | yes e ↦ Ensures-absurd (g j) (λ d k. k.1 j refl e)
          | no e ↦ Ensures-weaken (g j) (λ d k. k.0) (h j e)
        ]
