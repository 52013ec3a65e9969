-- ===== src/System.antt =====
-- The running server: what src/server.rs puts together from src/auth.rs, src/limits.rs and
-- src/backend.rs. libunftp calls its parts in an order that clients and the system choose: it asks
-- the gate, then for the details of the user whom the gate let in, then passes on that user's
-- requests, and reports logouts. The reaper ticks, and a SIGHUP reloads. Each of these is a step, and
-- any of them may come next; in particular a reload may come between the gate and the details.
mod Keeping
mod Users
mod Invariant
pub mod Safety
pub mod Logins
pub mod Entering
mod Examples
use ftp_reolink.Base.{
  ℕ, ◌*◌, String, ◌≡◌, ◌⊎◌, Bool, true, false, Option, none, some, List, [], ◌∷◌, ◌==◌, string_eq,
  contains, Result, ok, err, ◌≤◌, if◌then◌else◌,
}
use ftp_reolink.Path.{FilePath}
use ftp_reolink.Config.{Config, ConfigError}
use ftp_reolink.Limits.{PresenceEvent, SessionState, u32_max, receive_presence_event, reap}
use ftp_reolink.Auth.{
  Credentials, ReoUser, AuthenticationError, UserDetailError, authenticate, provide_user_detail,
}
use ftp_reolink.Disk.{Disk, IoError}
use ftp_reolink.Disk.Act.{World}
use ftp_reolink.Backend.Handlers.{ReoBackend}
use ftp_reolink.Backend.Requests.{Request, perform}
use ftp_reolink.Server.{Running, start, build_server, reload_config, ServerOptions}

-- The state that the tasks share, the logins that the gate has let in and whose details are still to
-- be asked for, the users who have their details, and the disk.
pub record System : Type 0 where
  pub running : Running
  pub proven : List String
  pub users : List ReoUser
  pub world : World

pub data LaunchError : Type 0 where
  no_homes : IoError → LaunchError
  no_server : String → LaunchError

abbrev pub idle : Running → World → System
idle running w = record { running = running; proven = []; users = []; world = w }

-- The user is one of the list.
abbrev pub Among : ReoUser → List ReoUser → Type 0
Among user [] = ⊥
Among user (u ∷ users) = (u ≡ user) ⊎ Among user users

abbrev pub with_sessions : SessionState → System → System
with_sessions sessions s = record s { running = record s.running { sessions = sessions } }

abbrev pub proven_if : Result AuthenticationError String → List String → List String
proven_if (ok principal) proven = principal ∷ proven
proven_if (err e) proven = proven

abbrev pub users_if : Result UserDetailError ReoUser → List ReoUser → List ReoUser
users_if (ok user) users = user ∷ users
users_if (err e) users = users

-- One of the logins that wait is served.
abbrev pub drop_one : String → List String → List String
drop_one p [] = []
drop_one p (q ∷ qs) = if q == p then qs else q ∷ drop_one p qs

abbrev pub entered : String → System → System
entered principal s = record s {
  proven = drop_one principal s.proven;
  users = users_if (provide_user_detail s.running.accounts principal) s.users;
}

abbrev pub reported : PresenceEvent → String → System → System
reported e u s = with_sessions (receive_presence_event e u s.running.sessions) s

-- `SESSION_TTL_SECS`
abbrev pub session_ttl_secs : ℕ
session_ttl_secs = 300

-- A tick of the session reaper of `run`, in the unit in which `ticks_per_sec` are one second.
abbrev pub ticked : ℕ → ℕ → System → System
ticked ticks_per_sec now s =
    with_sessions (reap (session_ttl_secs * ticks_per_sec) now s.running.sessions).0 s

module _ {Recipient : Type 0} (parse_recipient : String → Option Recipient) where
  -- What `ReoBackend::new` is given.
  abbrev pub served :
      Result String (ServerOptions parse_recipient)
      → System
      → Result LaunchError (System × ReoBackend Recipient)
  served (err e) s = err (no_server e)
  served (ok options) s = ok (s, record { recipients = options.recipients })

  -- `run`, up to the point where it listens: the first state, and the backend, whose recipients no
  -- reload changes.
  unfoldable pub launch : Config → World → Result LaunchError (System × ReoBackend Recipient)
  launch cfg w =
      let (started, w') = start cfg w in
      elim started [
        | err e ↦ err (no_homes e)
        | ok running ↦ served (build_server parse_recipient cfg) (idle running w')
      ]

  abbrev pub reloaded : Result ConfigError Config → System → System
  reloaded parsed s =
      let ((running, answer), w) = reload_config parse_recipient parsed s.running s.world in
      record s { running = running; world = w }

  -- `toml` reads the limit as a `u32`.
  abbrev pub Fits : Result ConfigError Config → Type 0
  Fits (ok cfg) = cfg.limits.max_connections ≤ u32_max
  Fits (err e) = Unit

  module _ {Phc : Type 0} (parse_phc : String → Option Phc) (matches : String → Phc → Bool) where
    abbrev pub gated : String → Credentials → ℕ → System → System
    gated username creds now s =
        let (sessions, answer) =
          authenticate parse_phc matches s.running.accounts username creds now s.running.sessions in
        record (with_sessions sessions s) { proven = proven_if answer s.proven }

    module _ (canonicalize : Disk → FilePath → Option FilePath)
        (encrypt : List Recipient → List (List ℕ) → Bool → List (List ℕ) × Bool)
        (backend : ReoBackend Recipient) where
      abbrev pub asked : ReoUser → Request → System → System
      asked user request s = record s {
        world = (perform canonicalize encrypt backend user request s.world).1;
      }

      -- What may happen next.
      pub data Step (s t : System) : Type 0 where
        gate :
            (username : String) (creds : Credentials) (now : ℕ)
            → t ≡ gated username creds now s
            → Step s t
        details :
            (principal : String)
            → contains s.proven principal ≡ true
            → t ≡ entered principal s
            → Step s t
        request :
            (user : ReoUser) (r : Request) → Among user s.users → t ≡ asked user r s → Step s t
        presence : (e : PresenceEvent) (u : String) → t ≡ reported e u s → Step s t
        tick : (ticks_per_sec now : ℕ) → t ≡ ticked ticks_per_sec now s → Step s t
        hangup :
            (parsed : Result ConfigError Config) → Fits parsed → t ≡ reloaded parsed s → Step s t

      -- The states that a server comes to from `s`.
      pub data Reach (s : System) : System → Type 0 where
        here : Reach s s
        later : {t u : System} → Reach s t → Step t u → Reach s u
