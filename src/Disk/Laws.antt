-- ===== src/Disk/Laws.antt =====
-- What the effects do to each name and to each inode.
use mathlib.Core.List.{append_assoc}
use ftp_reolink.Base.{
  true, ℕ, ◌+◌, ◌<◌, ◌≡◌, refl, ap, none, some, [], ◌∷◌, ◌++◌, arith, length, length-append, ◌==◌,
  if◌then◌else◌,
}
use ftp_reolink.Path.{Component, FilePath, path_eq}
use ftp_reolink.Disk.{Node, file, dir, Names, node_at, erase, make_dirs}

pub node_at-erase :
    (q p : FilePath) (ns : Names) → node_at q (erase p ns) ≡ (if p == q then none else node_at q ns)
unfolding node_at erase
node_at-erase q p [] = ground arith
node_at-erase q p ((r, n) ∷ ns) = ground (arith, node_at-erase q p ns)

pub node_at-cons :
    (q p : FilePath) (n : Node) (ns : Names)
    → node_at q ((p, n) ∷ ns) ≡ (if p == q then some n else node_at q ns)
unfolding node_at
node_at-cons q p n ns = refl

-- A name that is taken keeps its node.
pub make_dirs_taken :
    (q : FilePath) (n : Node) (ns : Names) (done rest : FilePath)
    → node_at q ns ≡ some n
    → node_at q (make_dirs ns done rest).0 ≡ some n
unfolding make_dirs
make_dirs_taken q n ns done [] h = h
make_dirs_taken q n ns done (c ∷ rest) h = ground (
  arith,
  make_dirs_taken q n ns (done ++ (c ∷ [])) rest,
  make_dirs_taken q n ((done ++ (c ∷ []), dir) ∷ ns) (done ++ (c ∷ [])) rest,
  node_at-cons q (done ++ (c ∷ [])) dir ns,
)

-- Only directories are made.
pub make_dirs_file :
    (q : FilePath) (i : ℕ) (ns : Names) (done rest : FilePath)
    → node_at q (make_dirs ns done rest).0 ≡ some (file i)
    → node_at q ns ≡ some (file i)
unfolding make_dirs
make_dirs_file q i ns done [] h = h
make_dirs_file q i ns done (c ∷ rest) h = ground (
  arith,
  make_dirs_file q i ns (done ++ (c ∷ [])) rest,
  make_dirs_file q i ((done ++ (c ∷ []), dir) ∷ ns) (done ++ (c ∷ [])) rest,
  node_at-cons q (done ++ (c ∷ [])) dir ns,
)

-- A path longer than the one that is made is not touched.
pub make_dirs_long :
    (q : FilePath) (ns : Names) (done rest : FilePath)
    → length done + length rest < length q
    → node_at q (make_dirs ns done rest).0 ≡ node_at q ns
unfolding make_dirs
make_dirs_long q ns done [] h = refl
make_dirs_long q ns done (c ∷ rest) h = ground (
  arith,
  make_dirs_long q ns (done ++ (c ∷ [])) rest,
  make_dirs_long q ((done ++ (c ∷ []), dir) ∷ ns) (done ++ (c ∷ [])) rest,
  node_at-cons q (done ++ (c ∷ [])) dir ns,
  length-append done (c ∷ []),
  λ (e : done ++ (c ∷ []) ≡ q). ap length e,
)

-- A path that is made, and is not empty, is a directory.
pub make_dirs_made :
    (c : Component) (ns : Names) (done rest : FilePath)
    → (make_dirs ns done (c ∷ rest)).1 ≡ true
    → node_at (done ++ (c ∷ rest)) (make_dirs ns done (c ∷ rest)).0 ≡ some dir
unfolding make_dirs
make_dirs_made c ns done [] h =
    ground (arith, node_at-cons (done ++ (c ∷ [])) (done ++ (c ∷ [])) dir ns)
make_dirs_made c ns done (e ∷ rest) h = ground (
  arith,
  append_assoc done (c ∷ []) (e ∷ rest),
  make_dirs_made e ns (done ++ (c ∷ [])) rest,
  make_dirs_made e ((done ++ (c ∷ []), dir) ∷ ns) (done ++ (c ∷ [])) rest,
)
