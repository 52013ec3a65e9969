-- ===== src/System/Entering.antt =====
-- About src/config.rs, src/account.rs and src/auth.rs together: whom a configuration lets in.
use ftp_reolink.Base.{
  ℕ, ◌≡◌, refl, sym, ap, ◌∙◌, String, Bool, true, Option, some, List, [], ◌∷◌, ◌⊎◌, inl, inr, All,
  ok,
}
use ftp_reolink.Base.Dict.{lookup}
use ftp_reolink.Config.{Config, login, validate}
use ftp_reolink.Account.{Account, Accounts, build, camera_account, viewer_account}
use ftp_reolink.Account.Logins.{build_accounts}
use ftp_reolink.Limits.{SessionState, try_admit}
use ftp_reolink.Auth.{tls, Credentials, authenticate, provide_user_detail}
use ftp_reolink.Auth.Gate.{given_password, authenticate_lets_in}
use ftp_reolink.System.Users.{AnyOf, user_of}

-- The login and the account are those of a camera or of a viewer of the configuration.
abbrev pub Listed : Config → String → Account → Type 0
Listed cfg u acct =
    AnyOf (λ cam. (u ≡ login cam) × (acct ≡ camera_account cfg.archive.root cam)) cfg.camera
    ⊎ AnyOf (λ v. (u ≡ v.name) × (acct ≡ viewer_account cfg.archive.root cfg.group v)) cfg.viewer

lookup-AnyOf :
    {A : Type 0} (name : A → String) (rights : A → Account) (items : List A) (accounts : Accounts)
    (u : String) (acct : Account)
    → All (λ x. lookup (name x) accounts ≡ some (rights x)) items
    → AnyOf (λ x. (u ≡ name x) × (acct ≡ rights x)) items
    → lookup u accounts ≡ some acct
lookup-AnyOf name rights [] accounts u acct each a = absurd a
lookup-AnyOf name rights (x ∷ xs) accounts u acct each (inl (e, q)) =
    ap (λ n. lookup n accounts) e ∙ (each.0 ∙ ap some (sym q))
lookup-AnyOf name rights (x ∷ xs) accounts u acct each (inr a) =
    lookup-AnyOf name rights xs accounts u acct each.1 a

module _ {Recipient : Type 0} (parse_recipient : String → Option Recipient) {Phc : Type 0}
    (parse_phc : String → Option Phc) (matches : String → Phc → Bool) (cfg : Config) (u : String)
    (acct : Account) (creds : Credentials) (now : ℕ) (sessions : SessionState) (hash : Phc) where
  lookup-Listed :
      validate parse_recipient cfg ≡ ok tt → Listed cfg u acct → lookup u (build cfg) ≡ some acct
  lookup-Listed valid (inl c) =
      lookup-AnyOf login (camera_account cfg.archive.root) cfg.camera (build cfg) u acct
        (build_accounts parse_recipient cfg valid).0 c
  lookup-Listed valid (inr v) =
      lookup-AnyOf (λ v. v.name) (viewer_account cfg.archive.root cfg.group) cfg.viewer (build cfg)
        u acct (build_accounts parse_recipient cfg valid).1 v

  -- Under a configuration that validation accepts, every camera and every viewer of it can log in: with
  -- a stored hash that can be read, the password that matches it, TLS where the account asks for it, and
  -- a free slot, the gate lets them in under their login, and the details are their own role and
  -- directories.
  pub authenticate-build :
      validate parse_recipient cfg ≡ ok tt
      → Listed cfg u acct
      → parse_phc acct.password_hash ≡ some hash
      → matches (given_password creds) hash ≡ true
      → (acct.require_tls ≡ true → creds.command_channel_security ≡ tls)
      → (try_admit u now sessions).1 ≡ true
      → ((authenticate parse_phc matches (build cfg) u creds now sessions).1 ≡ ok u)
        × (provide_user_detail (build cfg) u ≡ ok (user_of acct))
  unfolding provide_user_detail
  authenticate-build valid listed readable verified encrypted slot =
      let found = lookup-Listed valid listed in
      (
        authenticate_lets_in parse_phc matches (build cfg) u creds now sessions acct (record {
          holds = record { listed = found; hash = hash; readable = readable; verified = verified };
          encrypted = encrypted;
          has_slot = slot;
        }),
        rw (found, provide_user_detail) refl,
      )
