-- ===== src/Auth.antt =====
-- src/auth.rs and `verify_password` of src/hashing.rs: who may log in. The argon2 crate is a
-- parameter: `parse_phc` reads a PHC string, `matches` verifies a password against it.
pub mod Gate
mod Examples
use ftp_reolink.Base.{
  ℕ, String, Bool, true, false, not, ◌&&◌, Option, none, some, Result, ok, err, if◌then◌else◌,
  ◌>>=◌, ok_or,
}
use ftp_reolink.Base.Dict.{lookup}
use ftp_reolink.Path.{FilePath}
use ftp_reolink.Account.{Role, uploader, viewing, Account, Accounts}
use ftp_reolink.Limits.{SessionState, try_admit}

pub data ChannelEncryptionState : Type 0 where
  plaintext tls : ChannelEncryptionState

unfoldable pub channel_is_secure : ChannelEncryptionState → Bool
channel_is_secure tls = true
channel_is_secure plaintext = false

pub record Credentials : Type 0 where
  pub password : Option String
  pub command_channel_security : ChannelEncryptionState

pub record ReoUser : Type 0 where
  pub login : String
  pub role : Role
  pub require_tls : Bool

-- `UserDetail::home`
unfoldable pub home : ReoUser → Option FilePath
home user = elim user.role [ uploader dir ↦ some dir | viewing scope ↦ none ]

pub data AuthenticationError : Type 0 where
  bad_password tls_required connection_limit_reached : AuthenticationError

pub data UserDetailError : Type 0 where
  user_not_found : String → UserDetailError

module _ {Phc : Type 0} (parse_phc : String → Option Phc) (matches : String → Phc → Bool) where
  -- `none` is `HashError::Parse`.
  unfoldable pub verify_password : String → String → Option Bool
  verify_password plain phc = elim (parse_phc phc) [
    | some parsed ↦ some (matches plain parsed)
    | none ↦ none
  ]

  unfoldable pub check_credentials : Accounts → String → String → Option Account
  unfolding verify_password
  check_credentials accounts login password = elim (lookup login accounts) [
    | none ↦ none
    | some acct ↦ elim (verify_password password acct.password_hash) [
      | some true ↦ some acct
      | _ ↦ none
    ]
  ]

  -- The login gate: the new state of the tracker, and the principal's name or the refusal.
  unfoldable pub authenticate :
      Accounts
      → String
      → Credentials
      → ℕ
      → SessionState
      → SessionState × Result AuthenticationError String
  authenticate accounts username creds now sessions =
      let password = elim creds.password as (λ _. String) [ some p ↦ p | none ↦ "" ] in
      elim (check_credentials accounts username password) [
        | none ↦ (sessions, err bad_password)
        | some acct ↦
            if acct.require_tls && not (channel_is_secure creds.command_channel_security)
            then (sessions, err tls_required)
            else let (sessions', admitted) = try_admit username now sessions in
              if admitted
              then (sessions', ok username)
              else (sessions', err connection_limit_reached)
      ]

unfoldable pub provide_user_detail : Accounts → String → Result UserDetailError ReoUser
provide_user_detail accounts username = elim (lookup username accounts) [
  | some a ↦ ok (record { login = a.username; role = a.role; require_tls = a.require_tls })
  | none ↦ err (user_not_found username)
]
