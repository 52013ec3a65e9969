-- ===== src/Config.antt =====
-- src/config.rs: the configuration after serde has read it, and its validation. Messages of errors
-- are kept as data. `parse_recipient` stands for the parser of one public key: `s.trim()`, then the
-- age crate.
pub mod Valid
pub mod Sample
mod Examples
use ftp_reolink.Base.{
  ℕ, String, Bool, true, false, not, ◌&&◌, ◌||◌, ◌<◌, ltb, Option, none, some, List, [], ◌∷◌, ◌==◌,
  string_eq, contains, Result, ok, err, ◌>>=◌, ◌>>◌, guard, map_err, if◌then◌else◌,
}
use ftp_reolink.Base.Dict.{Dict, lookup}
use ftp_reolink.Path.{FilePath}

pub data Scope : Type 0 where
  all : Scope
  listed : List String → Scope

pub record ServerCfg : Type 0 where
  pub listen : String
  pub port : ℕ
  pub passive_lo : ℕ
  pub passive_hi : ℕ
  pub passive_host : Option String
  pub greeting : Option String
  pub tls_cert : Option FilePath
  pub tls_key : Option FilePath

pub record ArchiveCfg : Type 0 where
  pub root : FilePath
  pub retention_days : ℕ

pub record LockoutCfg : Type 0 where
  pub max_attempts : ℕ
  pub window_secs : ℕ
  pub ban_secs : ℕ

pub record LimitsCfg : Type 0 where
  pub max_connections : ℕ
  pub max_connections_per_ip : ℕ
  pub new_conns_per_min_per_ip : ℕ
  pub idle_timeout_secs : ℕ
  pub min_transfer_rate_bytes_per_sec : ℕ
  pub failed_login_lockout : LockoutCfg
  pub max_connections_per_account : Option ℕ

pub record CameraCfg : Type 0 where
  pub name : String
  pub username : Option String
  pub upload_password_hash : String
  pub require_tls : Option Bool

pub record ViewerCfg : Type 0 where
  pub name : String
  pub password_hash : String
  pub scope : Scope

pub record EncryptionCfg : Type 0 where
  pub recipients : List String

pub record Config : Type 0 where
  pub server : ServerCfg
  pub archive : ArchiveCfg
  pub limits : LimitsCfg
  pub camera : List CameraCfg
  pub group : Dict (List String)
  pub viewer : List ViewerCfg
  pub encryption : Option EncryptionCfg

-- What `ConfigError::Invalid` reports.
pub data Invalid : Type 0 where
  ports_unordered : Invalid
  duplicate_camera : String → Invalid
  duplicate_username : String → Invalid
  unknown_member : String → String → Invalid
  duplicate_viewer : String → Invalid
  viewer_collides : String → Invalid
  unknown_in_scope : String → String → Invalid
  no_recipients : Invalid
  bad_recipient : String → Invalid

pub data ConfigError : Type 0 where
  read : ConfigError
  parse : ConfigError
  invalid : Invalid → ConfigError

-- What a scope looks like in the file: `ScopeRepr`.
pub data ScopeRepr : Type 0 where
  text : String → ScopeRepr
  items : List String → ScopeRepr

-- `Deserialize for Scope`, past serde's choice of the representation; `none` is a custom error.
unfoldable pub deserialize_scope : ScopeRepr → Option Scope
deserialize_scope (text s) = if s == "all" then some all else none
deserialize_scope (items v) = some (listed v)

unfoldable pub login : CameraCfg → String
login cam = elim cam.username [ some u ↦ u | none ↦ cam.name ]

-- The loop over the cameras: it collects their names and logins.
unfoldable pub check_cameras :
    List CameraCfg → List String → List String → Result Invalid (List String × List String)
unfolding login
check_cameras [] names logins = ok (names, logins)
check_cameras (cam ∷ rest) names logins = do
  guard (not (contains names cam.name)) (duplicate_camera cam.name)
  guard (not (contains logins (login cam))) (duplicate_username (login cam))
  check_cameras rest (cam.name ∷ names) (login cam ∷ logins)

unfoldable pub check_members : String → List String → List String → Result Invalid (Unit {0})
check_members g names [] = ok tt
check_members g names (m ∷ members) = do
  guard (contains names m) (unknown_member g m)
  check_members g names members

unfoldable pub check_groups : List String → Dict (List String) → Result Invalid (Unit {0})
check_groups names [] = ok tt
check_groups names ((g, members) ∷ groups) = do
  check_members g names members
  check_groups names groups

unfoldable pub check_viewers :
    List String → List ViewerCfg → List String → Result Invalid (Unit {0})
check_viewers logins [] viewer_names = ok tt
check_viewers logins (v ∷ rest) viewer_names = do
  guard (not (contains viewer_names v.name)) (duplicate_viewer v.name)
  guard (not (contains logins v.name)) (viewer_collides v.name)
  check_viewers logins rest (v.name ∷ viewer_names)

abbrev pub contains_key : {V : Type 0} → String → Dict V → Bool
contains_key k d = elim (lookup k d) [ some v ↦ true | none ↦ false ]

unfoldable pub check_items :
    String → List String → Dict (List String) → List String → Result Invalid (Unit {0})
check_items v names groups [] = ok tt
check_items v names groups (it ∷ rest) = do
  guard (contains names it || contains_key it groups) (unknown_in_scope v it)
  check_items v names groups rest

abbrev check_scope : String → List String → Dict (List String) → Scope → Result Invalid (Unit {0})
check_scope v names groups all = ok tt
check_scope v names groups (listed its) = check_items v names groups its

unfoldable pub check_scopes :
    List String → Dict (List String) → List ViewerCfg → Result Invalid (Unit {0})
check_scopes names groups [] = ok tt
check_scopes names groups (v ∷ rest) = do
  check_scope v.name names groups v.scope
  check_scopes names groups rest

module _ {Recipient : Type 0} (parse_recipient : String → Option Recipient) where
  -- `parse_recipients` of src/crypto.rs: the first text that is no key is the error.
  unfoldable pub parse_recipients : List String → Result String (List Recipient)
  parse_recipients [] = ok []
  parse_recipients (s ∷ rest) = elim (parse_recipient s) [
    | none ↦ err s
    | some r ↦ do rs ← parse_recipients rest; ok (r ∷ rs)
  ]

  unfoldable pub check_encryption : Option EncryptionCfg → Result Invalid (Unit {0})
  check_encryption none = ok tt
  check_encryption (some enc) = elim enc.recipients [
    | [] ↦ err no_recipients
    | s ∷ rest ↦ do recipients ← map_err bad_recipient (parse_recipients (s ∷ rest)); ok tt
  ]

  unfoldable pub validate : Config → Result Invalid (Unit {0})
  validate cfg = do
    guard (not (ltb cfg.server.passive_hi cfg.server.passive_lo)) ports_unordered
    (names, logins) ← check_cameras cfg.camera [] []
    check_groups names cfg.group
    check_viewers logins cfg.viewer []
    check_scopes names cfg.group cfg.viewer
    check_encryption cfg.encryption

  -- `load`, given what reading the file and `toml::from_str` answered.
  unfoldable pub load : Result ConfigError Config → Result ConfigError Config
  load parsed = do c ← parsed; map_err invalid (validate c); ok c
