-- ===== src/Backend/Handlers.antt =====
-- src/backend.rs: the methods of `StorageBackend<ReoUser> for ReoBackend`. `canonicalize` is the
-- system's `realpath` on the disk of the moment; `encrypt` is what age writes for the recipients.
use ftp_reolink.Base.{
  ℕ, String, Bool, true, false, Option, none, some, List, [], ◌∷◌, Result, ok, err, map_err, ltb,
  ◌==◌, nat_eq, if◌then◌else◌,
}
use ftp_reolink.Path.{FilePath, file_name, join_name}
use ftp_reolink.Scope.{ScopeMap, resolve}
use ftp_reolink.Append.{quarantine_dir, is_reolink_test_file}
use ftp_reolink.Account.{Role, uploader, viewing}
use ftp_reolink.Auth.{ReoUser}
use ftp_reolink.Disk.{
  Node, Disk, IoError, FileMetadata, Effect, metadata_effect, create_dirs_effect, open_effect,
  read_open_effect, read_dir_effect,
}
use ftp_reolink.Disk.Act.{Act, call, pure, raise, wrap_err, attempt, ◌>>=◌, ◌>>◌}
use ftp_reolink.Store.{Input, copy, store_stream, store_encrypted, age_suffix}
use ftp_reolink.Backend.{
  Op, capability_allowed, user_view, StorageError, permission_denied,
  permanent_directory_not_available, file_name_not_allowed, of_io, path_err_to_storage,
  store_error_to_storage, missing_file, missing_directory, Meta, real, Fileinfo, hidden,
  synthesized, viewer_at_root,
}

-- `recipients` is set when uploads are to be encrypted.
pub record ReoBackend (Recipient : Type 0) : Type 0 where
  pub recipients : Option (List Recipient)

abbrev pub allow_if : Bool → Act StorageError (Unit {0})
allow_if true = pure tt
allow_if false = raise permission_denied

-- `if !capability_allowed(&user.role, op) { return Err(..) }`
unfoldable pub require : Role → Op → Act StorageError (Unit {0})
require role op = allow_if (capability_allowed role op)

abbrev pub or_raise : {A : Type 0} → Option A → StorageError → Act StorageError A
or_raise (some a) e = pure a
or_raise none e = raise e

-- A step through an open directory changes nothing; it may fail.
abbrev pub step_effect : Effect (Unit {0})
step_effect d = (ok tt, d)

-- A seek from the start of the open file, which answers the new position.
abbrev pub seek_effect : ℕ → Effect ℕ
seek_effect position d = (ok position, d)

abbrev pub add_entry : String → Result IoError FileMetadata → List Fileinfo → List Fileinfo
add_entry name (ok m) infos = record { path = name; meta = real m } ∷ infos
add_entry name (err e) infos = infos

-- One entry of the directory, before the `rest`: hidden and unreadable ones are left out.
abbrev pub listed_before :
    Bool → FilePath → String → Act StorageError (List Fileinfo) → Act StorageError (List Fileinfo)
listed_before true dir_path name rest = rest
listed_before false dir_path name rest = do
  answer ← attempt (call (metadata_effect (join_name dir_path name)))
  infos ← rest
  pure (add_entry name answer infos)

-- The loop of `list` over the entries of the directory.
unfoldable pub collect : FilePath → List String → Act StorageError (List Fileinfo)
collect dir_path [] = do wrap_err of_io (call step_effect); pure []
collect dir_path (name ∷ names) = do
  wrap_err of_io (call step_effect)
  listed_before (hidden name) dir_path name (collect dir_path names)

abbrev pub upload_home : Role → Act StorageError FilePath
upload_home (uploader home) = pure home
upload_home (viewing scope) = raise permission_denied

-- A probe file of a camera: it may be overwritten, and never becomes a finished file.
unfoldable pub quarantine : FilePath → String → Input → Act StorageError ℕ
quarantine home filename input = do
  let dir_path = join_name home quarantine_dir
  wrap_err of_io (call (create_dirs_effect dir_path))
  file ← wrap_err of_io (call (open_effect false (join_name dir_path filename)))
  wrap_err of_io (copy file input.chunks input.breaks 0)

-- `del`, `rename`, `rmd`, and every method of the backend for libunftp's `DefaultUser`.
unfoldable pub deny : {A : Type 0} → Act StorageError A
deny = raise permission_denied

abbrev pub entered : FileMetadata → Act StorageError (Unit {0})
entered m = if m.is_dir then pure tt else raise permanent_directory_not_available

module _ {Recipient : Type 0} (canonicalize : Disk → FilePath → Option FilePath)
    (encrypt : List Recipient → List (List ℕ) → Bool → List (List ℕ) × Bool) where
  -- `view.resolve(path).map_err(path_err_to_storage)`
  unfoldable pub resolved : ScopeMap → FilePath → Act StorageError FilePath
  resolved view path w = (map_err path_err_to_storage (resolve (canonicalize w.disk) view path), w)

  unfoldable pub metadata : ReoUser → FilePath → Act StorageError Meta
  metadata user path = do
    require user.role Op.metadata
    place ← resolved (user_view user) path
    m ← wrap_err missing_file (call (metadata_effect place))
    pure (real m)

  unfoldable pub list_place : ReoUser → FilePath → Act StorageError (List Fileinfo)
  list_place user path = do
    place ← resolved (user_view user) path
    names ← wrap_err missing_directory (call (read_dir_effect place))
    collect place names

  unfoldable pub list : ReoUser → FilePath → Act StorageError (List Fileinfo)
  unfolding list_place
  list user path = do
    require user.role Op.list
    elim (synthesized user.role path) [ some entries ↦ pure entries | none ↦ list_place user path ]

  -- The open file, and the position from which it is read.
  unfoldable pub get : ReoUser → FilePath → ℕ → Act StorageError (Node × ℕ)
  get user path start_pos = do
    require user.role Op.get
    place ← resolved (user_view user) path
    node ← wrap_err missing_file (call (read_open_effect place))
    position ← if ltb 0 start_pos then wrap_err of_io (call (seek_effect start_pos)) else pure 0
    pure (node, position)

  -- The append-only stores behind `put`.
  unfoldable pub put_resolved : ReoBackend Recipient → Input → ℕ → FilePath → Act StorageError ℕ
  put_resolved backend input start_pos place = elim backend.recipients [
    | some recipients ↦
        if start_pos == 0
        then wrap_err store_error_to_storage
            (store_encrypted (encrypt recipients) (age_suffix place) input)
        else raise permission_denied
    | none ↦ wrap_err store_error_to_storage (store_stream place start_pos input)
  ]

  unfoldable pub put_named :
      ReoBackend Recipient → ReoUser → Input → FilePath → ℕ → FilePath → String → Act StorageError ℕ
  put_named backend user input path start_pos home filename =
      if is_reolink_test_file filename
      then quarantine home filename input
      else (do place ← resolved (user_view user) path; put_resolved backend input start_pos place)

  unfoldable pub put : ReoBackend Recipient → ReoUser → Input → FilePath → ℕ → Act StorageError ℕ
  put backend user input path start_pos = do
    require user.role Op.put
    home ← upload_home user.role
    filename ← or_raise (file_name path) file_name_not_allowed
    put_named backend user input path start_pos home filename

  unfoldable pub mkd : ReoUser → FilePath → Act StorageError (Unit {0})
  mkd user path = do
    require user.role Op.mkd
    place ← resolved (user_view user) path
    wrap_err of_io (call (create_dirs_effect place))

  unfoldable pub cwd_place : ReoUser → FilePath → Act StorageError (Unit {0})
  cwd_place user path = do
    place ← resolved (user_view user) path
    m ← wrap_err missing_directory (call (metadata_effect place))
    entered m

  unfoldable pub cwd : ReoUser → FilePath → Act StorageError (Unit {0})
  cwd user path = do
    require user.role Op.cwd
    if viewer_at_root user.role path then pure tt else cwd_place user path
