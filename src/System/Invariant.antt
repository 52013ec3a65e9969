-- ===== src/System/Invariant.antt =====
-- About the running server of src/server.rs: what holds of it in every state.
use mathlib.Core.Path.{subst}
use ftp_reolink.Limits.{u32_max}
use ftp_reolink.Base.{◌≤◌}
use ftp_reolink.Base.{
  ℕ, ◌*◌, ◌≡◌, refl, sym, ◌∙◌, String, Bool, Option, List, ◌⊎◌, inl, inr, All, Result, ok, err,
  arith, Result-cases, ap, string_eq,
}
use ftp_reolink.Path.{FilePath}
use ftp_reolink.Config.{Config, ConfigError}
use ftp_reolink.Account.{Accounts}
use ftp_reolink.Limits.{
  SessionState, try_admit, reap, on_logout, PresenceEvent, logged_in, logged_out,
  receive_presence_event,
}
use ftp_reolink.Limits.Ledger.{total, NodupKeys, Trimmed}
use ftp_reolink.Limits.Invariant.{Inv, try_admit-Inv, reap-Inv, on_logout-Inv}
use ftp_reolink.Auth.{Credentials, ReoUser, UserDetailError, authenticate, provide_user_detail}
use ftp_reolink.Auth.Gate.{authenticate_needs, authenticate_refused}
use ftp_reolink.Disk.{Disk}
use ftp_reolink.Backend.Handlers.{ReoBackend}
use ftp_reolink.Server.{Running, ReloadError}
use ftp_reolink.Server.Reload.{Serves, Outcome, Outcome-Serves, reload_config_lem}
use ftp_reolink.System.{
  System, with_sessions, entered, users_if, reported, ticked, session_ttl_secs, reloaded, Fits,
  gated, Step, gate, details, request, presence, tick, hangup, Reach, here, later,
}
use ftp_reolink.System.Users.{Granted, detailed-IsUserOf}

module _ {Recipient : Type 0} (parse_recipient : String → Option Recipient) where
  pub record Sane (s : System) : Type 0 where
    pub serves : Serves parse_recipient s.running
    pub counted : Inv s.running.sessions
    pub granted : All (Granted parse_recipient) s.users

  -- A tracker with the same limits will do.
  Serves-with :
      (state : Running) (t : SessionState)
      → t.max_global ≡ state.sessions.max_global
      → t.max_per_account ≡ state.sessions.max_per_account
      → Serves parse_recipient state
      → Serves parse_recipient (record state { sessions = t })
  Serves-with state t g p s = record {
    cfg = s.cfg;
    valid = s.valid;
    accounts = s.accounts;
    global = g ∙ s.global;
    per_account = p ∙ s.per_account;
  }

  -- What happens in the tracker, and nowhere else.
  tracked-Sane :
      (s : System) (t : SessionState)
      → t.max_global ≡ s.running.sessions.max_global
      → t.max_per_account ≡ s.running.sessions.max_per_account
      → Inv t
      → Sane s
      → Sane (with_sessions t s)
  tracked-Sane s t g p v k = record {
    serves = Serves-with s.running t g p k.serves;
    counted = v;
    granted = k.granted;
  }

  try_admit_limits :
      (u : String) (now : ℕ) (s : SessionState)
      → ((try_admit u now s).0.max_global ≡ s.max_global)
        × ((try_admit u now s).0.max_per_account ≡ s.max_per_account)
  unfolding try_admit
  try_admit_limits u now s = (ground arith, ground arith)

  reported-Sane : (e : PresenceEvent) (u : String) (s : System) → Sane s → Sane (reported e u s)
  unfolding receive_presence_event on_logout
  reported-Sane logged_in u s k = k
  reported-Sane logged_out u s k =
      tracked-Sane s (on_logout u s.running.sessions) refl refl (on_logout-Inv u _ k.counted) k

  ticked-Sane : (n now : ℕ) (s : System) → Sane s → Sane (ticked n now s)
  ticked-Sane n now s k =
      tracked-Sane s (reap (session_ttl_secs * n) now s.running.sessions).0 (unfold reap in refl)
        (unfold reap in refl) (reap-Inv (session_ttl_secs * n) now _ k.counted) k

  entered-Sane : (principal : String) (s : System) → Sane s → Sane (entered principal s)
  entered-Sane principal s k = record {
    serves = k.serves;
    counted = k.counted;
    granted = go (provide_user_detail s.running.accounts principal) (λ user e. (
      k.serves.cfg,
      k.serves.valid,
      detailed-IsUserOf parse_recipient k.serves.cfg principal user k.serves.valid
          (ap (λ a. provide_user_detail a principal) (sym k.serves.accounts) ∙ e),
    ));
  }
    where
      go :
          (r : Result UserDetailError ReoUser)
          → ((user : ReoUser) → r ≡ ok user → Granted parse_recipient user)
          → All (Granted parse_recipient) (users_if r s.users)
      go (ok user) h = (h user refl, k.granted)
      go (err e) h = k.granted

  reloaded-Sane :
      (parsed : Result ConfigError Config) (s : System)
      → Fits parse_recipient parsed
      → Sane s
      → Sane (reloaded parse_recipient parsed s)
  reloaded-Sane parsed s fits k =
      let h = reload_config_lem parse_recipient parsed s.running s.world in
      record {
        serves = Outcome-Serves parse_recipient parsed s.running _ _ h k.serves;
        counted = Outcome-Inv _ _ h;
        granted = k.granted;
      }
    where
      Outcome-Inv :
          (after : Running) (answer : Result ReloadError (Unit {0}))
          → Outcome parse_recipient parsed s.running after answer
          → Inv after.sessions
      Outcome-Inv after (err e) h = subst (λ (x : Running). Inv x.sessions) (sym h) k.counted
      Outcome-Inv after (ok u) h = record {
        counted = h.count ∙ (k.counted.counted ∙ ap total (sym h.live));
        in_u32 = subst (λ n. n ≤ u32_max) (sym h.count) k.counted.in_u32;
        limit_in_u32 =
            subst (λ n. n ≤ u32_max) (sym h.max_global)
              (subst (Fits parse_recipient) h.was_read fits);
        distinct = subst NodupKeys (sym h.live) k.counted.distinct;
        trimmed = subst Trimmed (sym h.live) k.counted.trimmed;
      }

  module _ {Phc : Type 0} (parse_phc : String → Option Phc) (matches : String → Phc → Bool) where
    -- The gate changes the tracker by an admission, or not at all.
    authenticate_admits :
        (accounts : Accounts) (username : String) (creds : Credentials) (now : ℕ) (t : SessionState)
        → ((authenticate parse_phc matches accounts username creds now t).0
            ≡ (try_admit username now t).0)
          ⊎ ((authenticate parse_phc matches accounts username creds now t).0 ≡ t)
    authenticate_admits accounts username creds now t =
        elim (Result-cases (authenticate parse_phc matches accounts username creds now t).1) [
          | inl (e, r) ↦
              inr (authenticate_refused parse_phc matches accounts username creds now t e r)
          | inr (p, e) ↦
              inl (authenticate_needs parse_phc matches accounts username creds now t p e).2
        ]

    gated-Sane :
        (username : String) (creds : Credentials) (now : ℕ) (s : System)
        → Sane s
        → Sane (gated parse_recipient parse_phc matches username creds now s)
    gated-Sane username creds now s k =
        let t = s.running.sessions in
        let (g, p) = try_admit_limits username now t in
        elim (authenticate_admits s.running.accounts username creds now t) [
          | inl e ↦ went e g p (try_admit-Inv username now t k.counted)
          | inr e ↦ went e refl refl k.counted
        ]
      where
        went :
            {t : SessionState}
            → (authenticate parse_phc matches s.running.accounts username creds now
                s.running.sessions).0
              ≡ t
            → t.max_global ≡ s.running.sessions.max_global
            → t.max_per_account ≡ s.running.sessions.max_per_account
            → Inv t
            → Sane (gated parse_recipient parse_phc matches username creds now s)
        went {t} e g p v =
            let after =
              authenticate parse_phc matches s.running.accounts username creds now
                s.running.sessions in
            let kept =
              tracked-Sane s after.0 (ap (λ (x : SessionState). x.max_global) e ∙ g)
                (ap (λ (x : SessionState). x.max_per_account) e ∙ p) (subst Inv (sym e) v) k in
            record { serves = kept.serves; counted = kept.counted; granted = k.granted }

    module _ (canonicalize : Disk → FilePath → Option FilePath)
        (encrypt : List Recipient → List (List ℕ) → Bool → List (List ℕ) × Bool)
        (backend : ReoBackend Recipient) where
      Step-Sane :
          (s t : System)
          → Step parse_recipient parse_phc matches canonicalize encrypt backend s t
          → Sane s
          → Sane t
      Step-Sane s t (gate username creds now e) k =
          subst Sane (sym e) (gated-Sane username creds now s k)
      Step-Sane s t (details principal h e) k = subst Sane (sym e) (entered-Sane principal s k)
      Step-Sane s t (request user r among e) k =
          subst Sane (sym e)
            (record { serves = k.serves; counted = k.counted; granted = k.granted })
      Step-Sane s t (presence p u e) k = subst Sane (sym e) (reported-Sane p u s k)
      Step-Sane s t (tick n now e) k = subst Sane (sym e) (ticked-Sane n now s k)
      Step-Sane s t (hangup parsed fits e) k = subst Sane (sym e) (reloaded-Sane parsed s fits k)

      pub Reach-Sane :
          {s t : System}
          → Reach parse_recipient parse_phc matches canonicalize encrypt backend s t
          → Sane s
          → Sane t
      Reach-Sane here k = k
      Reach-Sane (later r st) k = Step-Sane _ _ st (Reach-Sane r k)
