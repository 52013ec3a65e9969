-- ===== src/Backend.antt =====
-- src/backend.rs: `ReoBackend`, the storage that libunftp asks on behalf of a logged-in user. This
-- file has its vocabulary, Backend/Handlers.antt its methods.
pub mod Handlers
pub mod Looking
pub mod Requests
pub mod Putting
pub mod Own
pub mod Sealing
pub mod Immutable
pub mod Capability
pub mod Listing
pub mod Sample
pub mod RoundTrip
mod Examples
use ftp_reolink.Base.{
  ℕ, String, Bool, true, false, not, ◌&&◌, ◌||◌, Option, none, some, List, [], ◌∷◌, ◌==◌, string_eq,
  map, if◌then◌else◌,
}
use ftp_reolink.Base.Text.{ends_with}
use ftp_reolink.Path.{FilePath, path_eq, root_dir}
use ftp_reolink.Scope.{PathError, traversal, not_found, outside_scope, ScopeMap, single, list_root}
use ftp_reolink.Append.{staging_suffix, quarantine_dir}
use ftp_reolink.Account.{Role, uploader, viewing}
use ftp_reolink.Auth.{ReoUser}
use ftp_reolink.Disk.{IoError, FileMetadata}
use ftp_reolink.Store.{StoreError, overlaps, gaps, finalized, io}

pub data Op : Type 0 where
  get put list metadata cwd mkd del rmd rename : Op

abbrev uploader_may : Op → Bool
uploader_may Op.put = true
uploader_may Op.mkd = true
uploader_may Op.list = true
uploader_may Op.metadata = true
uploader_may Op.cwd = true
uploader_may _ = false

abbrev viewer_may : Op → Bool
viewer_may Op.get = true
viewer_may Op.list = true
viewer_may Op.metadata = true
viewer_may Op.cwd = true
viewer_may _ = false

unfoldable pub capability_allowed : Role → Op → Bool
capability_allowed (uploader home) op = uploader_may op
capability_allowed (viewing scope) op = viewer_may op

unfoldable pub user_view : ReoUser → ScopeMap
user_view user = elim user.role [ uploader home ↦ single home | viewing scope ↦ scope ]

-- `unftp_core::storage::Error`, by the kind that the code gives it; `of_io` is `Error::from`.
pub data StorageError : Type 0 where
  permission_denied permanent_file_not_available permanent_directory_not_available : StorageError
  file_name_not_allowed : StorageError
  of_io : IoError → StorageError

abbrev pub path_err_to_storage : PathError → StorageError
path_err_to_storage traversal = permission_denied
path_err_to_storage outside_scope = permission_denied
path_err_to_storage not_found = permanent_file_not_available

abbrev pub store_error_to_storage : StoreError → StorageError
store_error_to_storage overlaps = file_name_not_allowed
store_error_to_storage gaps = file_name_not_allowed
store_error_to_storage finalized = permanent_file_not_available
store_error_to_storage (io e) = of_io e

-- What the handlers make of a call that failed.
abbrev pub missing_file : IoError → StorageError
missing_file IoError.not_found = permanent_file_not_available
missing_file IoError.already_exists = of_io IoError.already_exists
missing_file IoError.failed = of_io IoError.failed

abbrev pub missing_directory : IoError → StorageError
missing_directory IoError.not_found = permanent_directory_not_available
missing_directory IoError.already_exists = of_io IoError.already_exists
missing_directory IoError.failed = of_io IoError.failed

pub data Meta : Type 0 where
  real : FileMetadata → Meta
  synth_dir : Meta

abbrev pub meta_len : Meta → ℕ
meta_len (real m) = m.len
meta_len synth_dir = 0

abbrev pub meta_is_dir : Meta → Bool
meta_is_dir (real m) = m.is_dir
meta_is_dir synth_dir = true

abbrev pub meta_is_file : Meta → Bool
meta_is_file (real m) = m.is_file
meta_is_file synth_dir = false

-- `Fileinfo`, whose path is one name here.
pub record Fileinfo : Type 0 where
  pub path : String
  pub meta : Meta

-- The entries that `list` leaves out.
unfoldable pub hidden : String → Bool
hidden name = ends_with name staging_suffix || name == quarantine_dir

abbrev no_names : List String → Bool
no_names [] = true
no_names (n ∷ names) = false

unfoldable pub is_single_scope : ScopeMap → Bool
is_single_scope scope = no_names (list_root scope)

-- `virt == Path::new("/") || virt == Path::new("")`
abbrev pub is_root : FilePath → Bool
is_root virt = virt == root_dir ∷ [] || virt == []

-- The listing of the virtual root of a viewer of several roots.
unfoldable pub synthesized : Role → FilePath → Option (List Fileinfo)
unfolding is_single_scope
synthesized (uploader home) virt = none
synthesized (viewing scope) virt =
    if is_root virt && not (no_names (list_root scope)) && not (is_single_scope scope)
    then some (map (λ name. record { path = name; meta = synth_dir }) (list_root scope))
    else none

unfoldable pub viewer_at_root : Role → FilePath → Bool
viewer_at_root (uploader home) virt = false
viewer_at_root (viewing scope) virt = is_root virt && not (is_single_scope scope)
