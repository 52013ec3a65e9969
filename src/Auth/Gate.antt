-- ===== src/Auth/Gate.antt =====
-- About `authenticate` and `check_credentials` of src/auth.rs: what the login gate lets through, and what it
-- costs.
use ftp_reolink.Base.{
  ℕ, ◌≡◌, ◌↔◌, inl, inr, String, Bool, true, Option, none, some, ok, err, arith, Option-cases,
}
use ftp_reolink.Base.Dict.{lookup}
use ftp_reolink.Account.{Account, Accounts}
use ftp_reolink.Limits.{SessionState, try_admit}
use ftp_reolink.Auth.{
  tls, Credentials, AuthenticationError, check_credentials, authenticate, channel_is_secure,
}

abbrev pub given_password : Credentials → String
given_password creds = elim creds.password [ some p ↦ p | none ↦ "" ]

module _ {Phc : Type 0} (parse_phc : String → Option Phc) (matches : String → Phc → Bool) where
  -- The account of the login, with a readable hash that the password matches.
  pub record Holds (accounts : Accounts) (login password : String) (acct : Account) : Type 0 where
    pub listed : lookup login accounts ≡ some acct
    pub hash : Phc
    pub readable : parse_phc acct.password_hash ≡ some hash
    pub verified : matches password hash ≡ true

  check_credentials-Holds :
      (accounts : Accounts) (login password : String) (acct : Account)
      → check_credentials parse_phc matches accounts login password ≡ some acct
      → Holds accounts login password acct
  unfolding check_credentials
  check_credentials-Holds accounts login password acct h =
      elim (Option-cases (lookup login accounts)) [
        | inl e ↦ absurd (ground arith)
        | inr (a, e) ↦ elim (Option-cases (parse_phc a.password_hash)) [
          | inl p ↦ absurd (ground arith)
          | inr (hash, p) ↦ record {
            listed = ground arith;
            hash = hash;
            readable = ground arith;
            verified = ground arith;
          }
        ]
      ]

  -- The check of a password yields an account exactly when the login has that account, its stored
  -- hash can be read, and the password matches it.
  pub check_credentials_iff :
      (accounts : Accounts) (login password : String) (acct : Account)
      → (check_credentials parse_phc matches accounts login password ≡ some acct)
        ↔ Holds accounts login password acct
  unfolding check_credentials
  check_credentials_iff accounts login password acct = (
    check_credentials-Holds accounts login password acct,
    λ h. ground (arith, h.listed, h.readable, h.verified),
  )

  -- Everything a login needs to be let in as `acct`.
  pub record MayEnter (accounts : Accounts) (username : String) (creds : Credentials) (now : ℕ)
      (sessions : SessionState) (acct : Account) : Type 0 where
    pub holds : Holds accounts username (given_password creds) acct
    pub encrypted : acct.require_tls ≡ true → creds.command_channel_security ≡ tls
    pub has_slot : (try_admit username now sessions).1 ≡ true

  module _ (accounts : Accounts) (username : String) (creds : Credentials) (now : ℕ)
      (sessions : SessionState) where
    -- The gate lets a login in only as the name it gave, with an account whose password it
    -- proved, over TLS where the account asks for it, and with a slot taken for it.
    pub authenticate_needs :
        (p : String)
        → (authenticate parse_phc matches accounts username creds now sessions).1 ≡ ok p
        → (p ≡ username)
          × ((acct : Account) × MayEnter accounts username creds now sessions acct)
          × ((authenticate parse_phc matches accounts username creds now sessions).0
              ≡ (try_admit username now sessions).0)
    unfolding authenticate channel_is_secure
    authenticate_needs p h =
        elim (Option-cases
          (check_credentials parse_phc matches accounts username (given_password creds))) [
            | inl e ↦ absurd (ground arith)
            | inr (acct, e) ↦ (
              ground arith,
              (
                acct,
                record {
                  holds = check_credentials-Holds accounts username (given_password creds) acct e;
                  encrypted = λ q. ground arith;
                  has_slot = ground arith;
                },
              ),
              ground arith,
            )
          ]

    -- A login that has what it needs is let in.
    pub authenticate_lets_in :
        (acct : Account)
        → MayEnter accounts username creds now sessions acct
        → (authenticate parse_phc matches accounts username creds now sessions).1 ≡ ok username
    unfolding authenticate channel_is_secure
    authenticate_lets_in acct m = ground (
      arith,
      (check_credentials_iff accounts username (given_password creds) acct).1 m.holds,
      m.encrypted,
      m.has_slot,
    )

    -- A login that is refused, for whatever reason, takes no slot: the tracker is as it was.
    pub authenticate_refused :
        (e : AuthenticationError)
        → (authenticate parse_phc matches accounts username creds now sessions).1 ≡ err e
        → (authenticate parse_phc matches accounts username creds now sessions).0 ≡ sessions
    unfolding authenticate try_admit
    authenticate_refused e h = ground arith
