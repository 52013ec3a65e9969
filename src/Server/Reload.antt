-- ===== src/Server/Reload.antt =====
-- About `reload_config` of src/server.rs.
use mathlib.Core.Path.{subst}
use ftp_reolink.Base.{◌≡◌, refl, sym, String, Option, Result, ok, err, map_err, arith, >>-eq-ok}
use ftp_reolink.Config.{Config, ConfigError, Invalid, invalid, load, validate}
use ftp_reolink.Account.{build}
use ftp_reolink.Limits.{set_limits}
use ftp_reolink.Disk.{IoError}
use ftp_reolink.Disk.Act.{World}
use ftp_reolink.Server.{
  Running, ReloadError, ensure_home_dirs, apply_reload, reload_loaded, reload_config,
}

module _ {Recipient : Type 0} (parse_recipient : String → Option Recipient) where
  map_err-eq-ok : (r : Result Invalid (Unit {0})) → map_err invalid r ≡ ok tt → r ≡ ok tt
  map_err-eq-ok (ok u) h = refl
  map_err-eq-ok (err e) h = cc

  load-eq-ok :
      (parsed : Result ConfigError Config) (cfg : Config)
      → load parse_recipient parsed ≡ ok cfg
      → (parsed ≡ ok cfg) × (validate parse_recipient cfg ≡ ok tt)
  unfolding load
  load-eq-ok (err e) cfg h = cc
  load-eq-ok (ok c) cfg h =
      let (first, rest) = >>-eq-ok (map_err invalid (validate parse_recipient c)) (ok c) h in
      same c cfg rest (map_err-eq-ok _ first)
    where
      same :
          (c cfg : Config)
          → ◌≡◌ {A = Result ConfigError Config} (ok c) (ok cfg)
          → validate parse_recipient c ≡ ok tt
          → (◌≡◌ {A = Result ConfigError Config} (ok c) (ok cfg))
            × (validate parse_recipient cfg ≡ ok tt)
      same c cfg e v =
          (e, subst (λ (x : Config). validate parse_recipient x ≡ ok tt) (ground arith) v)

  -- The configuration that a running state stands for passed validation.
  pub record Serves (state : Running) : Type 0 where
    pub cfg : Config
    pub valid : validate parse_recipient cfg ≡ ok tt
    pub accounts : state.accounts ≡ build cfg
    pub global : state.sessions.max_global ≡ cfg.limits.max_connections
    pub per_account : state.sessions.max_per_account ≡ cfg.limits.max_connections_per_account

  -- What a reload that succeeded has done: it took over the accounts and the limits of the
  -- configuration that it read, which is valid, and left every live session and their count alone.
  pub record TookOver (parsed : Result ConfigError Config) (before after : Running) : Type 0 where
    pub cfg : Config
    pub was_read : parsed ≡ ok cfg
    pub valid : validate parse_recipient cfg ≡ ok tt
    pub accounts : after.accounts ≡ build cfg
    pub live : after.sessions.per_account ≡ before.sessions.per_account
    pub count : after.sessions.global ≡ before.sessions.global
    pub max_global : after.sessions.max_global ≡ cfg.limits.max_connections
    pub max_per_account : after.sessions.max_per_account ≡ cfg.limits.max_connections_per_account

  abbrev pub Outcome :
      Result ConfigError Config → Running → Running → Result ReloadError (Unit {0}) → Type 0
  Outcome parsed before after (ok u) = TookOver parsed before after
  Outcome parsed before after (err e) = after ≡ before

  applied :
      (parsed : Result ConfigError Config) (cfg : Config) (state : Running)
      (made : Result IoError (Unit {0}))
      → (parsed ≡ ok cfg) × (validate parse_recipient cfg ≡ ok tt)
      → Outcome parsed state (apply_reload cfg state made).0 (apply_reload cfg state made).1
  unfolding set_limits
  applied parsed cfg state (err e) h = refl
  applied parsed cfg state (ok u) h = record {
    cfg = cfg;
    was_read = h.0;
    valid = h.1;
    accounts = refl;
    live = refl;
    count = refl;
    max_global = refl;
    max_per_account = refl;
  }

  loaded :
      (parsed r : Result ConfigError Config) (state : Running) (w : World)
      → load parse_recipient parsed ≡ r
      → Outcome parsed state (reload_loaded r state w).0.0 (reload_loaded r state w).0.1
  loaded parsed (err e) state w h = refl
  loaded parsed (ok cfg) state w h =
      applied parsed cfg state (ensure_home_dirs cfg.archive.root cfg.camera w).0
        (load-eq-ok parsed cfg h)

  -- A reload either fails and leaves the accounts, the limits and the sessions as they were; or it
  -- takes over the accounts and the limits of the configuration that was read, which passed
  -- validation, and leaves every live session of every account and their count as they were. This
  -- holds whatever is read, whatever calls fail and whatever the other sessions do meanwhile.
  pub reload_config_lem :
      (parsed : Result ConfigError Config) (state : Running) (w : World)
      → let ((after, answer), w') = reload_config parse_recipient parsed state w in
        Outcome parsed state after answer
  unfolding reload_config
  reload_config_lem parsed state w = loaded parsed _ state w refl

  pub Outcome-Serves :
      (parsed : Result ConfigError Config) (before after : Running)
      (answer : Result ReloadError (Unit {0}))
      → Outcome parsed before after answer
      → Serves before
      → Serves after
  Outcome-Serves parsed before after (err e) h s = subst Serves (sym h) s
  Outcome-Serves parsed before after (ok u) h s = record {
    cfg = h.cfg;
    valid = h.valid;
    accounts = h.accounts;
    global = h.max_global;
    per_account = h.max_per_account;
  }
