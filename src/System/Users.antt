-- ===== src/System/Users.antt =====
-- About the users that the accounts of a configuration in src/account.rs and src/auth.rs serve.
use mathlib.Core.Path.{subst}
use mathlib.Core.Option
use ftp_reolink.Base.{
  ◌≡◌, refl, sym, ◌∙◌, String, true, Option, some, List, [], ◌∷◌, ◌⊎◌, inl, inr, All, ok, arith,
  Option-cases, contains, map, string_dec, ap, Bool-cases, string_eq,
}
use ftp_reolink.Base.Dict.{lookup}
use ftp_reolink.Config.{Config, login, validate}
use ftp_reolink.Config.Valid.{camera_logins}
use ftp_reolink.Account.{Account, Accounts, build, camera_account, viewer_account}
use ftp_reolink.Account.Logins.{viewer_names, build_accounts}
use ftp_reolink.Auth.{ReoUser, provide_user_detail}

-- The user that an account stands for.
abbrev pub user_of : Account → ReoUser
user_of a = record { login = a.username; role = a.role; require_tls = a.require_tls }

-- Some item of the list has the property.
abbrev pub AnyOf : {A : Type 0} → (A → Type 0) → List A → Type 0
AnyOf P [] = ⊥
AnyOf P (x ∷ xs) = P x ⊎ AnyOf P xs

-- The user is a camera or a viewer of the configuration, under its own login and with its own rights.
abbrev pub IsUserOf : Config → ReoUser → Type 0
IsUserOf cfg user =
    AnyOf (λ cam. (user ≡ user_of (camera_account cfg.archive.root cam)) × (user.login ≡ login cam))
      cfg.camera
    ⊎ AnyOf
        (λ v.
          (user ≡ user_of (viewer_account cfg.archive.root cfg.group v)) × (user.login ≡ v.name))
        cfg.viewer

any_named :
    {A : Type 0} (name : A → String) (rights : A → Account) (items : List A) (accounts : Accounts)
    (u : String) (a : Account)
    → ((x : A) → (rights x).username ≡ name x)
    → lookup u accounts ≡ some a
    → All (λ x. lookup (name x) accounts ≡ some (rights x)) items
    → contains (map name items) u ≡ true
    → AnyOf (λ x. (user_of a ≡ user_of (rights x)) × (a.username ≡ name x)) items
any_named name rights [] accounts u a named h each c = absurd (ground arith)
any_named name rights (x ∷ xs) accounts u a named h each c = elim (string_dec (name x) u) [
  | yes e ↦
      let same : a ≡ rights x =
        Option.some-injective a (rights x)
          (sym h ∙ (ap (λ k. lookup k accounts) (sym e) ∙ each.0)) in
      inl (ap user_of same, ap (λ b. b.username) same ∙ named x)
  | no n ↦ inr (any_named name rights xs accounts u a named h each.1 (ground arith))
]

module _ {Recipient : Type 0} (parse_recipient : String → Option Recipient) where
  -- The user is one of a configuration that validation accepts.
  abbrev pub Granted : ReoUser → Type 0
  Granted user = (cfg : Config) × (validate parse_recipient cfg ≡ ok tt) × IsUserOf cfg user

  lookup-IsUserOf :
      (cfg : Config) (u : String) (a : Account)
      → validate parse_recipient cfg ≡ ok tt
      → lookup u (build cfg) ≡ some a
      → IsUserOf cfg (user_of a)
  unfolding camera_account viewer_account
  lookup-IsUserOf cfg u a valid h =
      let (cams, viewers, others) = build_accounts parse_recipient cfg valid in
      elim (Bool-cases (contains (camera_logins cfg.camera) u)) [
        | inl c ↦ inl (
            any_named login (camera_account cfg.archive.root) cfg.camera _ u a (λ x. refl) h cams c)
        | inr c ↦ elim (Bool-cases (contains (viewer_names cfg.viewer) u)) [
          | inl v ↦ inr (
              any_named (λ v. v.name) (viewer_account cfg.archive.root cfg.group) cfg.viewer _ u a
                (λ x. refl) h viewers v)
          | inr v ↦ absurd (cc (others u c v, h))
        ]
      ]

  -- Whoever gets their details from the accounts in force is a user of the configuration in force.
  pub detailed-IsUserOf :
      (cfg : Config) (u : String) (user : ReoUser)
      → validate parse_recipient cfg ≡ ok tt
      → provide_user_detail (build cfg) u ≡ ok user
      → IsUserOf cfg user
  unfolding provide_user_detail
  detailed-IsUserOf cfg u user valid h = elim (Option-cases (lookup u (build cfg))) [
    | inl e ↦ absurd (ground arith)
    | inr (a, e) ↦ subst (IsUserOf cfg) (ground arith) (lookup-IsUserOf cfg u a valid e)
  ]
