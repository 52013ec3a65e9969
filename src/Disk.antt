-- ===== src/Disk.antt =====
-- The file system under the server, as far as its calls see it: names lead to directories or to
-- inodes, and inodes hold bytes. A hard link gives an inode a second name. Paths are real paths, so
-- equal paths are one place. These are the effects of the calls of `std::fs` that the code makes
-- (through tokio), each on a disk that nobody else touches meanwhile; Disk/Act.antt adds that.
pub mod Act
pub mod Writing
pub mod Laws
pub mod Triple
pub mod Keeping
pub mod Calls
pub mod Still
use ftp_reolink.Base.{
  ℕ, suc, ◌+◌, String, Bool, true, false, Option, none, some, List, [], ◌∷◌, ◌++◌, ◌==◌, nat_eq,
  Result, ok, err, length, if◌then◌else◌,
}
use ftp_reolink.Path.{Component, FilePath, path_eq, component_eq, normal}

pub data Node : Type 0 where
  file : ℕ → Node
  dir : Node

-- `std::io::ErrorKind`, as far as the code tells kinds apart.
pub data IoError : Type 0 where
  not_found already_exists failed : IoError

abbrev pub Names : Type 0
Names = List (FilePath × Node)

pub record Disk : Type 0 where
  pub names : Names
  pub bytes : ℕ → List ℕ
  pub modes : ℕ → ℕ
  pub next : ℕ

unfoldable pub node_at : FilePath → Names → Option Node
node_at p [] = none
node_at p ((q, n) ∷ ns) = if q == p then some n else node_at p ns

unfoldable pub erase : FilePath → Names → Names
erase p [] = []
erase p ((q, n) ∷ ns) = let rest = erase p ns in if q == p then rest else (q, n) ∷ rest

abbrev pub update : {A : Type 0} → (ℕ → A) → ℕ → A → ℕ → A
update f i v j = if i == j then v else f j

-- `std::fs::Metadata`, as far as the code reads it.
pub record FileMetadata : Type 0 where
  pub len : ℕ
  pub is_dir : Bool
  pub is_file : Bool

abbrev pub describe : (ℕ → List ℕ) → Node → FileMetadata
describe bytes (file i) = record { len = length (bytes i); is_dir = false; is_file = true }
describe bytes dir = record { len = 0; is_dir = true; is_file = false }

abbrev pub is_some : {A : Type 0} → Option A → Bool
is_some none = false
is_some (some a) = true

-- What a call answers, and the disk after it.
abbrev pub Effect : Type 0 → Type 0
Effect A = Disk → Result IoError A × Disk

-- `try_exists`
unfoldable pub exists_effect : FilePath → Effect Bool
exists_effect p d = (ok (is_some (node_at p d.names)), d)

-- `metadata`
unfoldable pub metadata_effect : FilePath → Effect FileMetadata
metadata_effect p d = elim (node_at p d.names) [
  | none ↦ (err not_found, d)
  | some n ↦ (ok (describe d.bytes n), d)
]

-- `remove_file`
unfoldable pub remove_effect : FilePath → Effect (Unit {0})
remove_effect p d = elim (node_at p d.names) [
  | none ↦ (err not_found, d)
  | some (file i) ↦ (ok tt, record d { names = erase p d.names })
  | some dir ↦ (err failed, d)
]

-- The directories of a path, from the first component on; `false` where a file is in the way.
unfoldable pub make_dirs : Names → FilePath → FilePath → Names × Bool
make_dirs ns done [] = (ns, true)
make_dirs ns done (c ∷ rest) =
    let p : FilePath = done ++ (c ∷ []) in
    elim (node_at p ns) [
      | some (file i) ↦ (ns, false)
      | some dir ↦ make_dirs ns p rest
      | none ↦ make_dirs ((p, dir) ∷ ns) p rest
    ]

-- `create_dir_all`
unfoldable pub create_dirs_effect : FilePath → Effect (Unit {0})
create_dirs_effect p d =
    let (ns, made) = make_dirs d.names [] p in
    (if made then ok tt else err failed, record d { names = ns })

-- The mode that a file is created with, `0o666`, before the umask clears bits of it.
abbrev pub default_mode : ℕ
default_mode = 438

-- Opening for writing creates the file if its name is free; `open_effect keep` empties an existing
-- file unless `keep` is set. A missing parent directory is among the faults of Disk/Act.antt.
unfoldable pub open_effect : Bool → FilePath → Effect ℕ
open_effect keep p d = elim (node_at p d.names) [
  | some (file i) ↦ (ok i, if keep then d else record d { bytes = update d.bytes i [] })
  | some dir ↦ (err failed, d)
  | none ↦ (
    ok d.next,
    record {
      names = (p, file d.next) ∷ d.names;
      bytes = update d.bytes d.next [];
      modes = update d.modes d.next default_mode;
      next = suc d.next;
    },
  )
]

-- The same with `truncate` and `mode(m)`, which counts only where the file is created.
unfoldable pub open_mode_effect : ℕ → FilePath → Effect ℕ
open_mode_effect m p d = elim (node_at p d.names) [
  | some (file i) ↦ (ok i, record d { bytes = update d.bytes i [] })
  | some dir ↦ (err failed, d)
  | none ↦ (
    ok d.next,
    record {
      names = (p, file d.next) ∷ d.names;
      bytes = update d.bytes d.next [];
      modes = update d.modes d.next m;
      next = suc d.next;
    },
  )
]

-- A write at the end of an open file. Its inode may have other names, or none, by now. (For a file
-- that was not opened to append, this is exact while nobody else writes to it.)
unfoldable pub write_effect : ℕ → List ℕ → Effect (Unit {0})
write_effect i chunk d = (ok tt, record d { bytes = update d.bytes i (d.bytes i ++ chunk) })

-- `hard_link`: it never replaces a name.
unfoldable pub link_effect : FilePath → FilePath → Effect (Unit {0})
link_effect source target d = elim (node_at target d.names) [
  | some n ↦ (err already_exists, d)
  | none ↦ elim (node_at source d.names) [
    | none ↦ (err not_found, d)
    | some dir ↦ (err failed, d)
    | some (file i) ↦ (ok tt, record d { names = (target, file i) ∷ d.names })
  ]
]

-- Opening for reading: a directory can be opened too.
unfoldable pub read_open_effect : FilePath → Effect Node
read_open_effect p d = elim (node_at p d.names) [ none ↦ (err not_found, d) | some n ↦ (ok n, d) ]

-- Reading an open file to its end.
unfoldable pub read_effect : Node → Effect (List ℕ)
read_effect (file i) d = (ok (d.bytes i), d)
read_effect dir d = (err failed, d)

-- Opening to append, without `create`.
unfoldable pub append_open_effect : FilePath → Effect ℕ
append_open_effect p d = elim (node_at p d.names) [
  | none ↦ (err not_found, d)
  | some (file i) ↦ (ok i, d)
  | some dir ↦ (err failed, d)
]

-- The name of `q` in the directory `p`, if it stands there.
unfoldable pub child_name : FilePath → FilePath → Option String
child_name [] (normal s ∷ []) = some s
child_name (c ∷ p) (d ∷ q) = if c == d then child_name p q else none
child_name _ _ = none

unfoldable pub entry_names : FilePath → Names → List String
unfolding child_name
entry_names p [] = []
entry_names p ((q, n) ∷ ns) =
    let rest = entry_names p ns in elim (child_name p q) [ some s ↦ s ∷ rest | none ↦ rest ]

-- `read_dir`: the entries are those at the opening.
unfoldable pub read_dir_effect : FilePath → Effect (List String)
read_dir_effect p d = elim (node_at p d.names) [
  | none ↦ (err not_found, d)
  | some (file i) ↦ (err failed, d)
  | some dir ↦ (ok (entry_names p d.names), d)
]
