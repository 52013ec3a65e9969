-- ===== src/Server.antt =====
-- src/server.rs: the start of the server and the reload of its configuration on SIGHUP. What a
-- reload reads is an argument: what reading and parsing the file gave.
pub mod Reload
pub mod Homes
pub mod Privileges
mod Examples
use ftp_reolink.Base.{ℕ, String, Option, none, some, List, [], ◌∷◌, Result, ok, err, map_err, ◌>>=◌}
use ftp_reolink.Path.{FilePath, join, path_of}
use ftp_reolink.Config.{Config, CameraCfg, ConfigError, EncryptionCfg, load, parse_recipients}
use ftp_reolink.Account.{Accounts, build}
use ftp_reolink.Limits.{SessionState, new, set_limits}
use ftp_reolink.Disk.{IoError, create_dirs_effect}
use ftp_reolink.Disk.Act as Act
use ftp_reolink.Disk.Act.{World, call, pure}

-- What the handlers share: the swapped accounts and the tracker.
pub record Running : Type 0 where
  pub accounts : Accounts
  pub sessions : SessionState

pub data ReloadError : Type 0 where
  bad_config : ConfigError → ReloadError
  home_dirs : IoError → ReloadError

-- The directory of a camera below the archive.
abbrev pub home_dir : FilePath → CameraCfg → FilePath
home_dir root cam = join root (path_of cam.name)

-- The loop of `ensure_home_dirs`: the first error ends it.
unfoldable pub ensure_home_dirs : FilePath → List CameraCfg → Act.Act IoError (Unit {0})
ensure_home_dirs root [] = pure tt
ensure_home_dirs root (cam ∷ cams) =
    Act.◌>>=◌ (call (create_dirs_effect (home_dir root cam))) (λ u. ensure_home_dirs root cams)

-- The new accounts and limits take effect only when the directories are there.
abbrev pub apply_reload :
    Config → Running → Result IoError (Unit {0}) → Running × Result ReloadError (Unit {0})
apply_reload cfg state (err e) = (state, err (home_dirs e))
apply_reload cfg state (ok u) = (
  record {
    accounts = build cfg;
    sessions =
        set_limits cfg.limits.max_connections cfg.limits.max_connections_per_account state.sessions;
  },
  ok tt,
)

abbrev pub reload_loaded :
    Result ConfigError Config → Running → World → (Running × Result ReloadError (Unit {0})) × World
reload_loaded (err e) state w = ((state, err (bad_config e)), w)
reload_loaded (ok cfg) state w =
    let (made, w') = ensure_home_dirs cfg.archive.root cfg.camera w in
    (apply_reload cfg state made, w')

module _ {Recipient : Type 0} (parse_recipient : String → Option Recipient) where
  unfoldable pub reload_config :
      Result ConfigError Config
      → Running
      → World
      → (Running × Result ReloadError (Unit {0})) × World
  reload_config parsed state w = reload_loaded (load parse_recipient parsed) state w

  -- What `build_server` sets on libunftp's builder.
  pub record ServerOptions : Type 0 where
    pub recipients : Option (List Recipient)
    pub passive_lo : ℕ
    pub passive_hi : ℕ
    pub idle_session_timeout : ℕ
    pub lockout_attempts : ℕ
    pub lockout_window : ℕ
    pub passive_host : Option String
    pub greeting : Option String
    pub ftps : Option (FilePath × FilePath)

  abbrev pub both : {A B : Type 0} → Option A → Option B → Option (A × B)
  both (some a) (some b) = some (a, b)
  both (some a) none = none
  both none b = none

  abbrev pub read_recipients : Option EncryptionCfg → Result String (Option (List Recipient))
  read_recipients none = ok none
  read_recipients (some enc) = do rs ← parse_recipients parse_recipient enc.recipients; ok (some rs)

  unfoldable pub build_server : Config → Result String ServerOptions
  build_server cfg = do
    recipients ← read_recipients cfg.encryption
    ok (record {
      recipients = recipients;
      passive_lo = cfg.server.passive_lo;
      passive_hi = cfg.server.passive_hi;
      idle_session_timeout = cfg.limits.idle_timeout_secs;
      lockout_attempts = cfg.limits.failed_login_lockout.max_attempts;
      lockout_window = cfg.limits.failed_login_lockout.window_secs;
      passive_host = cfg.server.passive_host;
      greeting = cfg.server.greeting;
      ftps = both cfg.server.tls_cert cfg.server.tls_key;
    })

-- The state that `run` starts with, after it has made the home directories.
unfoldable pub start : Config → World → Result IoError Running × World
start cfg w =
    let (made, w') = ensure_home_dirs cfg.archive.root cfg.camera w in
    (
      elim made [
        | err e ↦ err e
        | ok u ↦ ok (record {
          accounts = build cfg;
          sessions = new cfg.limits.max_connections cfg.limits.max_connections_per_account;
        })
      ],
      w',
    )
