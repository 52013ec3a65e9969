-- ===== src/Backend/Requests.antt =====
-- The requests that libunftp passes to src/backend.rs on behalf of clients.
use ftp_reolink.Base.{ℕ, String, ◌≡◌, Bool, true, Option, List, ◌⊎◌, nat_eq}
use ftp_reolink.Path.{FilePath, join_name}
use ftp_reolink.Append.{quarantine_dir, is_reolink_test_file, staging_path}
use ftp_reolink.Auth.{ReoUser}
use ftp_reolink.Disk.{Disk}
use ftp_reolink.Disk.Act.{Act, pure, ◌>>=◌}
use ftp_reolink.Store.{Input}
use ftp_reolink.Backend.{Op, StorageError}
use ftp_reolink.Backend.Handlers

-- The names that uploads write to before a file is finished: staging names, and probe files in a
-- quarantine directory.
abbrev pub Scratch : FilePath → Type 0
Scratch q =
    ((p : FilePath) × (q ≡ staging_path p))
    ⊎ ((home : FilePath) × (name : String) × (q ≡ join_name (join_name home quarantine_dir) name)
        × (is_reolink_test_file name ≡ true))

-- What libunftp asks of the backend.
pub data Request : Type 0 where
  metadata list mkd rmd del cwd : FilePath → Request
  rename : FilePath → FilePath → Request
  get : FilePath → ℕ → Request
  put : Input → FilePath → ℕ → Request

abbrev pub op_of : Request → Op
op_of (Request.metadata p) = Op.metadata
op_of (Request.list p) = Op.list
op_of (Request.mkd p) = Op.mkd
op_of (Request.rmd p) = Op.rmd
op_of (Request.del p) = Op.del
op_of (Request.cwd p) = Op.cwd
op_of (Request.rename p q) = Op.rename
op_of (Request.get p n) = Op.get
op_of (Request.put i p n) = Op.put

abbrev pub forget : {A : Type 0} → Act StorageError A → Act StorageError (Unit {0})
forget m = m >>= λ a. pure tt

module _ {Recipient : Type 0} (canonicalize : Disk → FilePath → Option FilePath)
    (encrypt : List Recipient → List (List ℕ) → Bool → List (List ℕ) × Bool)
    (backend : Handlers.ReoBackend Recipient) where
  unfoldable pub perform : ReoUser → Request → Act StorageError (Unit {0})
  perform user (Request.metadata p) = forget (Handlers.metadata canonicalize encrypt user p)
  perform user (Request.list p) = forget (Handlers.list canonicalize encrypt user p)
  perform user (Request.mkd p) = Handlers.mkd canonicalize encrypt user p
  perform user (Request.rmd p) = Handlers.deny
  perform user (Request.del p) = Handlers.deny
  perform user (Request.cwd p) = Handlers.cwd canonicalize encrypt user p
  perform user (Request.rename p q) = Handlers.deny
  perform user (Request.get p n) = forget (Handlers.get canonicalize encrypt user p n)
  perform user (Request.put i p n) = forget (Handlers.put canonicalize encrypt backend user i p n)
