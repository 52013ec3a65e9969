-- ===== src/Store/Sealed.antt =====
-- About `store_encrypted` of src/backend.rs: what it publishes, when nobody else touches the disk and
-- no call fails.
use ftp_reolink.Base.{
  ℕ, ◌+◌, ◌<◌, ◌≡◌, refl, ap, ◌∙◌, String, Bool, true, false, none, some, List, [], ◌∷◌, ◌++◌, ok,
  suc, length, arith, Option-cases, inl, inr, nat_eq,
}
use native.Mathlib.Decide.{ℕ_discrete}
use ftp_reolink.Path.{FilePath, path_eq, parent, file_name}
use ftp_reolink.Path.Laws.{length-parent}
use ftp_reolink.Append.{staging_path}
use ftp_reolink.Append.Laws.{staging_path-ne}
use ftp_reolink.Disk.{
  file, Disk, node_at, erase, update, make_dirs, exists_effect, create_dirs_effect, open_effect,
  write_effect, link_effect, remove_effect,
}
use ftp_reolink.Disk.Laws.{node_at-erase, node_at-cons, make_dirs_long}
use ftp_reolink.Disk.Act.{call, pure, wrap_err, attempt, bind_ok, pure_run}
use ftp_reolink.Disk.Still.{
  still, call_run, attempt_run, ignore_run, wrap_run, Wrote, Wrote-nil, Wrote-write,
}
use ftp_reolink.Store.{
  io, os, Input, flush_effect, refuse_if, create_parent, copy, finalize, linked, discard,
  total_length, store_encrypted, finalized,
}
use ftp_reolink.Store.Atomic.{joined}
use ftp_reolink.Store.Outcome.{named_length}

copy_lem :
    (j : ℕ) (chunks : List (List ℕ)) (n : ℕ) (d : Disk)
    → (m : ℕ) × (d' : Disk) × Wrote d j (joined chunks) d'
      × (copy j chunks false n (still d) ≡ (ok m, still d'))
unfolding copy pure write_effect
copy_lem j [] n d = (n, d, Wrote-nil d j, refl)
copy_lem j (c ∷ chunks) n d =
    let written : Disk = record d { bytes = update d.bytes j (d.bytes j ++ c) } in
    let (m, d', w, run) = copy_lem j chunks (n + length c) written in
    (
      m,
      d',
      Wrote-write d j c (joined chunks) d' w,
      bind_ok (call (write_effect j c)) _ (call_run (write_effect j c) refl) ∙ run,
    )

-- The final name and the staging name are free, and no file is in the way of the directories.
pub record Vacant (p : FilePath) (d : Disk) : Type 0 where
  pub free : node_at p d.names ≡ none
  pub unstaged : node_at (staging_path p) d.names ≡ none
  pub clear : (q : FilePath) → parent (staging_path p) ≡ some q → (make_dirs d.names [] q).1 ≡ true

module _ (p : FilePath) (name : String) (named : file_name p ≡ some name) where
  abbrev s : FilePath
  s = staging_path p

  -- Both names are free, and no inode has changed.
  record Made (d d' : Disk) : Type 0 where
    free : node_at p d'.names ≡ none
    unstaged : node_at s d'.names ≡ none

  parent_run :
      (d : Disk)
      → Vacant p d
      → (d' : Disk) × (create_parent s (still d) ≡ (ok tt, still d')) × Made d d'
  unfolding create_parent create_dirs_effect pure
  parent_run d v = elim (Option-cases (parent s)) [
    | inl e ↦ (d, rw (e, create_parent) refl, record { free = v.free; unstaged = v.unstaged })
    | inr (q, e) ↦ (
      record d { names = (make_dirs d.names [] q).0 },
      rw (e, create_parent)
          (wrap_run (call (create_dirs_effect q)) io (
            call_run (create_dirs_effect q) {d = d}
              {d' = record d { names = (make_dirs d.names [] q).0 }} {r = ok tt}
              (rw (v.clear q e) refl))),
      record {
        free =
            make_dirs_long p d.names [] q (omega (arith, length-parent s q e, named_length p named))
            ∙ v.free;
        unstaged = make_dirs_long s d.names [] q (omega (arith, length-parent s q e)) ∙ v.unstaged;
      },
    )
  ]

  -- The final name leads to a file with these bytes.
  pub record Holds (bytes : List ℕ) (d : Disk) : Type 0 where
    pub inode : ℕ
    pub there : node_at p d.names ≡ some (file inode)
    pub content : d.bytes inode ≡ bytes
    pub allocated : inode < d.next

  finalize_run :
      (j n : ℕ) (d : Disk)
      → node_at p d.names ≡ none
      → node_at s d.names ≡ some (file j)
      → j < d.next
      → (d' : Disk) × (finalize s p n (still d) ≡ (ok n, still d')) × Holds (d.bytes j) d'
  unfolding finalize pure link_effect remove_effect
  finalize_run j n d free staged below =
      let linked_disk : Disk = record d { names = (p, file j) ∷ d.names } in
      let still_staged : node_at s linked_disk.names ≡ some (file j) =
        ground (arith, node_at-cons s p (file j) d.names, staged) in
      (
        record linked_disk { names = erase s linked_disk.names },
        bind_ok (attempt (call (link_effect s p))) (linked s n) (
              attempt_run _ (
                call_run (link_effect s p) {d = d} {d' = linked_disk} {r = ok tt}
                  (rw (free, staged, link_effect) refl)))
            ∙ bind_ok (discard s) (λ u. pure n)
                (ignore_run _ (
                  call_run (remove_effect s) {d = linked_disk}
                    {d' = record linked_disk { names = erase s linked_disk.names }} {r = ok tt}
                    (rw (still_staged, remove_effect) refl))),
        record {
          inode = j;
          there = ground (
            arith,
            node_at-erase p s linked_disk.names,
            node_at-cons p p (file j) d.names,
            staging_path-ne p,
          );
          content = refl;
          allocated = below;
        },
      )

  -- The staging file is open at a new inode, and empty.
  opens :
      (d : Disk)
      → node_at p d.names ≡ none
      → node_at s d.names ≡ none
      → (d' : Disk) × (os (open_effect false s) (still d) ≡ (ok d.next, still d'))
        × (node_at p d'.names ≡ none)
        × (node_at s d'.names ≡ some (file d.next))
        × (d'.bytes d.next ≡ [])
        × (d.next < d'.next)
  unfolding open_effect ℕ_discrete
  opens d free unstaged =
      let d' : Disk = record {
        names = (s, file d.next) ∷ d.names;
        bytes = update d.bytes d.next [];
        modes = update d.modes d.next 438;
        next = suc d.next;
      } in
      (
        d',
        wrap_run (call (open_effect false s)) io (
            call_run (open_effect false s) {d = d} {d' = d'} {r = ok d.next}
              (rw (unstaged, open_effect) refl)),
        ground (arith, node_at-cons p s (file d.next) d.names, staging_path-ne p, free),
        ground (arith, node_at-cons s s (file d.next) d.names),
        ground arith,
        omega arith,
      )

  looks : (d : Disk) → node_at p d.names ≡ none → exists_effect p d ≡ (ok false, d)
  unfolding exists_effect
  looks d free = rw free refl

  -- When nobody else touches the disk, no call fails and neither does the encryption, and both names
  -- are free, an encrypted store returns the count of the plain bytes and the final name leads to
  -- exactly what the encryption wrote.
  pub store_encrypted_publishes :
      (encrypt : List (List ℕ) → Bool → List (List ℕ) × Bool) (input : Input) (d : Disk)
      → Vacant p d
      → (encrypt input.chunks input.breaks).1 ≡ false
      → (d' : Disk) × (store_encrypted encrypt p input (still d)
          ≡ (ok (total_length input.chunks), still d'))
        × Holds (joined (encrypt input.chunks input.breaks).0) d'
  unfolding store_encrypted
  store_encrypted_publishes encrypt input d v whole =
      let sealed = (encrypt input.chunks input.breaks).0 in
      let (d₁, made, m) = parent_run d v in
      let (d₂, opening, free, staged, empty, below) = opens d₁ m.free m.unstaged in
      let (n, d₃, w, copying) = copy_lem d₁.next sealed 0 d₂ in
      let (d₄, ending, holds) =
        finalize_run d₁.next (total_length input.chunks) d₃ (ap (node_at p) w.names ∙ free)
          (ap (node_at s) w.names ∙ staged) (omega (arith, below, w.next)) in
      (
        d₄,
        bind_ok (attempt (call (exists_effect p))) _
              (attempt_run _ (call_run (exists_effect p) (looks d v.free)))
            ∙ (bind_ok (refuse_if false finalized) _ (pure_run tt (still d))
                ∙ (bind_ok (create_parent s) _ made
                    ∙ (bind_ok (os (open_effect false s)) _ opening
                        ∙ (bind_ok
                              (wrap_err io
                                (copy d₁.next sealed (encrypt input.chunks input.breaks).1 0))
                              _
                              (wrap_run _ io
                                (ap (λ b. copy d₁.next sealed b 0 (still d₂)) whole ∙ copying))
                            ∙ (bind_ok (os flush_effect) _
                                  (wrap_run _ io (call_run flush_effect refl))
                                ∙ ending))))),
        record {
          inode = holds.inode;
          there = holds.there;
          content = holds.content ∙ (w.content ∙ ap (λ bytes. bytes ++ joined sealed) empty);
          allocated = holds.allocated;
        },
      )
