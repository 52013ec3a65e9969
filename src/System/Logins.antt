-- ===== src/System/Logins.antt =====
-- About logins that a reload took away, in the running server of src/server.rs.
use mathlib.Core.Path.{subst}
use ftp_reolink.Base.{
  ℕ, ◌≡◌, ◌≢◌, refl, sym, map, string_dec, true, ap, ◌∙◌, String, Bool, false, Option, none, List,
  [], ◌∷◌, inl, inr, All, Result, ok, err, arith, contains, string_eq,
}
use ftp_reolink.Path.{FilePath}
use ftp_reolink.Config.{Config, validate, login}
use ftp_reolink.Config.Valid.{camera_logins}
use ftp_reolink.Account.{build}
use ftp_reolink.Account.Logins.{viewer_names, build_accounts}
use ftp_reolink.Auth.{
  Credentials, ReoUser, UserDetailError, AuthenticationError, authenticate, provide_user_detail,
}
use ftp_reolink.Auth.Gate.{authenticate_needs}
use ftp_reolink.Disk.{Disk}
use ftp_reolink.Backend.Handlers.{ReoBackend}
use ftp_reolink.System.{
  System, Among, Step, gate, details, request, presence, tick, hangup, users_if, entered, drop_one,
  gated, proven_if,
}
use ftp_reolink.Base.Dict.{lookup}
use ftp_reolink.System.Users.{AnyOf, IsUserOf, detailed-IsUserOf}

-- Whoever is served under the login was served in `s`.
abbrev pub NoneNew : String → System → List ReoUser → Type 0
NoneNew u s users = All (λ user. user.login ≡ u → Among user s.users) users

-- In `t`, the accounts are those of the configuration, nobody is served under the login who was not
-- in `s`, and none waits under it that did not in `s`.
pub record Shut (cfg : Config) (u : String) (s t : System) : Type 0 where
  pub accounts : t.running.accounts ≡ build cfg
  pub none_new : NoneNew u s t.users
  pub none_proven : contains t.proven u ≡ true → contains s.proven u ≡ true

-- What some item of the list has, some name of the list is.
any_listed :
    {A : Type 0} (name : A → String) (P : A → Type 0) (items : List A) (user : ReoUser) (u : String)
    → user.login ≡ u
    → ((x : A) → P x → user.login ≡ name x)
    → AnyOf P items
    → contains (map name items) u ≡ true
any_listed name P [] user u e named a = absurd a
any_listed name P (x ∷ xs) user u e named (inl p) = ground (arith, named x p)
any_listed name P (x ∷ xs) user u e named (inr a) =
    ground (arith, any_listed name P xs user u e named a)

contains-drop_one :
    (p u : String) (qs : List String) → contains (drop_one p qs) u ≡ true → contains qs u ≡ true
contains-drop_one p u [] h = h
contains-drop_one p u (q ∷ qs) h = ground (arith, contains-drop_one p u qs)

All-Among :
    {P : ReoUser → Type 0} (users : List ReoUser)
    → ((user : ReoUser) → Among user users → P user)
    → All P users
All-Among [] h = tt
All-Among (x ∷ xs) h = (h x (inl refl), All-Among xs (λ user a. h user (inr a)))

module _ {Recipient : Type 0} (parse_recipient : String → Option Recipient) {Phc : Type 0}
    (parse_phc : String → Option Phc) (matches : String → Phc → Bool)
    (canonicalize : Disk → FilePath → Option FilePath)
    (encrypt : List Recipient → List (List ℕ) → Bool → List (List ℕ) × Bool)
    (backend : ReoBackend Recipient) where
  abbrev IsHangup :
      {s t : System}
      → Step parse_recipient parse_phc matches canonicalize encrypt backend s t
      → Type 0
  IsHangup (hangup parsed fits e) = Unit
  IsHangup (gate u c n e) = ⊥
  IsHangup (details p h e) = ⊥
  IsHangup (request u r a e) = ⊥
  IsHangup (presence p u e) = ⊥
  IsHangup (tick n m e) = ⊥

  -- The states that a server comes to from `s` without a reload.
  pub data Serving (s : System) : System → Type 0 where
    idle : Serving s s
    after :
        {t u : System}
        → Serving s t
        → (step : Step parse_recipient parse_phc matches canonicalize encrypt backend t u)
        → (IsHangup step → ⊥)
        → Serving s u

  module _ (cfg : Config) (valid : validate parse_recipient cfg ≡ ok tt) (u : String)
      (no_camera : contains (camera_logins cfg.camera) u ≡ false)
      (no_viewer : contains (viewer_names cfg.viewer) u ≡ false) (s : System) where
    unlisted : lookup u (build cfg) ≡ none
    unlisted = (build_accounts parse_recipient cfg valid).2 u no_camera no_viewer

    abbrev Closed : System → Type 0
    Closed = Shut cfg u s

    not_user : (user : ReoUser) → IsUserOf cfg user → user.login ≢ u
    not_user user (inl c) e = cc (any_listed login _ cfg.camera user u e (λ x h. h.1) c, no_camera)
    not_user user (inr v) e =
        cc (any_listed (λ v. v.name) _ cfg.viewer user u e (λ x h. h.1) v, no_viewer)

    entered-Shut : (principal : String) (t : System) → Closed t → Closed (entered principal t)
    entered-Shut principal t k = record {
      accounts = k.accounts;
      none_new = go (provide_user_detail t.running.accounts principal) refl;
      none_proven = λ h. k.none_proven (contains-drop_one principal u t.proven h);
    }
      where
        go :
            (r : Result UserDetailError ReoUser)
            → provide_user_detail t.running.accounts principal ≡ r
            → NoneNew u s (users_if r t.users)
        go (ok user) h = (
          λ e. absurd (
              not_user user
                (detailed-IsUserOf parse_recipient cfg principal user valid
                  (ap (λ a. provide_user_detail a principal) (sym k.accounts) ∙ h))
                e),
          k.none_new,
        )
        go (err e) h = k.none_new

    gated-Shut :
        (username : String) (creds : Credentials) (now : ℕ) (t : System)
        → Closed t
        → Closed (gated parse_recipient parse_phc matches username creds now t)
    gated-Shut username creds now t k = record {
      accounts = k.accounts;
      none_new = k.none_new;
      none_proven =
          go
            (authenticate parse_phc matches t.running.accounts username creds now
              t.running.sessions).1
            refl;
    }
      where
        go :
            (r : Result AuthenticationError String)
            → (authenticate parse_phc matches t.running.accounts username creds now
                t.running.sessions).1
              ≡ r
            → contains (proven_if r t.proven) u ≡ true
            → contains s.proven u ≡ true
        go (ok p) h c =
            let (named, (acct, enters), same) =
              authenticate_needs parse_phc matches t.running.accounts username creds now
                t.running.sessions p h in
            elim (string_dec p u) [
              | yes e ↦ absurd (cc (unlisted, enters.holds.listed, named, e, k.accounts))
              | no n ↦ k.none_proven (ground arith)
            ]
        go (err e) h c = k.none_proven c

    Step-Shut :
        (t v : System)
        (step : Step parse_recipient parse_phc matches canonicalize encrypt backend t v)
        → (IsHangup step → ⊥)
        → Closed t
        → Closed v
    Step-Shut t v (gate username creds now e) n k =
        subst Closed (sym e) (gated-Shut username creds now t k)
    Step-Shut t v (details principal h e) n k = subst Closed (sym e) (entered-Shut principal t k)
    Step-Shut t v (request user r among e) n k =
        subst Closed (sym e)
          (record { accounts = k.accounts; none_new = k.none_new; none_proven = k.none_proven })
    Step-Shut t v (presence p w e) n k =
        subst Closed (sym e)
          (record { accounts = k.accounts; none_new = k.none_new; none_proven = k.none_proven })
    Step-Shut t v (tick m now e) n k =
        subst Closed (sym e)
          (record { accounts = k.accounts; none_new = k.none_new; none_proven = k.none_proven })
    Step-Shut t v (hangup parsed fits e) n k = absurd (n tt)

    Serving-Shut : {t : System} → Serving s t → Closed s → Closed t
    Serving-Shut idle k = k
    Serving-Shut (after r step n) k = Step-Shut _ _ step n (Serving-Shut r k)

    -- Let the accounts in force be those of a configuration that validation accepts and that has no
    -- camera and no viewer of the login `u`, as after a reload that took it away. Until the next reload,
    -- whatever else happens: the gate does not let `u` in again, and whoever is served under `u` had
    -- their details already.
    pub serving-Shut : {t : System} → s.running.accounts ≡ build cfg → Serving s t → Closed t
    serving-Shut e r = Serving-Shut r (record {
      accounts = e;
      none_new = All-Among s.users (λ user among e. among);
      none_proven = λ h. h;
    })
