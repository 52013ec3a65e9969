-- ===== src/Account.antt =====
-- src/account.rs: the accounts that a configuration stands for, keyed by login.
pub mod Expand
pub mod Logins
mod Examples
use ftp_reolink.Base.{
  String, Bool, true, false, Option, none, some, List, [], ◌∷◌, ◌++◌, if◌then◌else◌,
}
use ftp_reolink.Base.Dict.{Dict, lookup, insert, keys}
use ftp_reolink.Path.{FilePath, join, path_of}
use ftp_reolink.Scope.{ScopeMap, single, multi}
use ftp_reolink.Config.{Config, CameraCfg, ViewerCfg, Scope, all, listed, login}

pub data Role : Type 0 where
  uploader : FilePath → Role
  viewing : ScopeMap → Role

pub record Account : Type 0 where
  pub username : String
  pub password_hash : String
  pub role : Role
  pub require_tls : Bool

-- `Accounts`: the map `by_login`, and its `get`.
abbrev pub Accounts : Type 0
Accounts = Dict Account

-- The names of one item of a scope: the members of a group, or the item itself.
unfoldable pub item_names : Dict (List String) → String → List String
item_names groups it = elim (lookup it groups) [ some members ↦ members | none ↦ it ∷ [] ]

-- `BTreeSet<String>`
abbrev pub NameSet : Type 0
NameSet = Dict (Unit {0})

-- `names.extend(members)`
unfoldable pub add_names : List String → NameSet → NameSet
add_names [] set = set
add_names (n ∷ names) set = add_names names (insert n tt set)

-- The loop over the items of a scope.
unfoldable pub collect_names : Dict (List String) → List String → NameSet → NameSet
unfolding item_names add_names
collect_names groups [] set = set
collect_names groups (it ∷ items) set =
    collect_names groups items (add_names (item_names groups it) set)

-- The loop over the set, in its order.
unfoldable pub roots_of : FilePath → List String → Dict FilePath → Dict FilePath
roots_of root [] roots = roots
roots_of root (n ∷ names) roots = roots_of root names (insert n (join root (path_of n)) roots)

unfoldable pub expand_scope : FilePath → Dict (List String) → Scope → ScopeMap
unfolding collect_names roots_of
expand_scope root groups all = single root
expand_scope root groups (listed items) =
    multi (roots_of root (keys (collect_names groups items [])) [])

unfoldable pub camera_account : FilePath → CameraCfg → Account
camera_account root cam = record {
  username = login cam;
  password_hash = cam.upload_password_hash;
  role = uploader (join root (path_of cam.name));
  require_tls = elim cam.require_tls [ some b ↦ b | none ↦ false ];
}

unfoldable pub viewer_account : FilePath → Dict (List String) → ViewerCfg → Account
viewer_account root groups v = record {
  username = v.name;
  password_hash = v.password_hash;
  role = viewing (expand_scope root groups v.scope);
  require_tls = false;
}

unfoldable pub add_cameras : FilePath → List CameraCfg → Accounts → Accounts
add_cameras root [] accounts = accounts
add_cameras root (cam ∷ cams) accounts =
    add_cameras root cams (insert (login cam) (camera_account root cam) accounts)

unfoldable pub add_viewers : FilePath → Dict (List String) → List ViewerCfg → Accounts → Accounts
add_viewers root groups [] accounts = accounts
add_viewers root groups (v ∷ viewers) accounts =
    add_viewers root groups viewers (insert v.name (viewer_account root groups v) accounts)

unfoldable pub build : Config → Accounts
unfolding add_cameras add_viewers
build cfg =
    add_viewers cfg.archive.root cfg.group cfg.viewer (add_cameras cfg.archive.root cfg.camera [])
