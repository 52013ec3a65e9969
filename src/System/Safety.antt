-- ===== src/System/Safety.antt =====
-- About the running server of src/server.rs, from its launch on.
use mathlib.Core.Path.{subst}
use ftp_reolink.Base.{
  ℕ, ◌≤◌, ◌≡◌, refl, sym, String, Bool, Option, List, All, ok, arith, Result-cases, inl, inr,
}
use ftp_reolink.Path.{FilePath}
use ftp_reolink.Config.{Config, validate}
use ftp_reolink.Account.{build}
use ftp_reolink.Limits.{u32_max, new}
use ftp_reolink.Limits.Invariant.{new-Inv}
use ftp_reolink.Disk.{Disk}
use ftp_reolink.Disk.Act.{World}
use ftp_reolink.Disk.Keeping.{Kept, Respects}
use ftp_reolink.Backend.Handlers.{ReoBackend}
use ftp_reolink.Backend.Requests.{Scratch}
use ftp_reolink.Server.{start, build_server, ensure_home_dirs}
use ftp_reolink.System.{System, idle, launch, Reach}
use ftp_reolink.System.Keeping.{Safe, start-Safe, Reach-Safe}
use ftp_reolink.System.Invariant.{Sane, Reach-Sane}

module _ {Recipient : Type 0} (parse_recipient : String → Option Recipient) where
  -- The state in which a server is launched.
  pub launch-idle :
      (cfg : Config) (w : World) (s : System) (backend : ReoBackend Recipient)
      → launch parse_recipient cfg w ≡ ok (s, backend)
      → s
        ≡ idle
            (record {
              accounts = build cfg;
              sessions = new cfg.limits.max_connections cfg.limits.max_connections_per_account;
            })
            (start cfg w).1
  unfolding launch start
  launch-idle cfg w s backend h =
      elim (Result-cases (ensure_home_dirs cfg.archive.root cfg.camera w).0) [
        | inl (e, made) ↦ absurd (ground arith)
        | inr (u, made) ↦ elim (Result-cases (build_server parse_recipient cfg)) [
          | inl (e, built) ↦ absurd (ground arith)
          | inr (options, built) ↦ ground arith
        ]
      ]

  launch-Sane :
      (cfg : Config) (w : World) (s : System) (backend : ReoBackend Recipient)
      → validate parse_recipient cfg ≡ ok tt
      → cfg.limits.max_connections ≤ u32_max
      → launch parse_recipient cfg w ≡ ok (s, backend)
      → Sane parse_recipient s
  unfolding new
  launch-Sane cfg w s backend valid fits h =
      subst (Sane parse_recipient) (sym (launch-idle cfg w s backend h)) (record {
        serves = record {
          cfg = cfg;
          valid = valid;
          accounts = refl;
          global = refl;
          per_account = refl;
        };
        counted = new-Inv _ _ fits;
        granted = tt;
      })

  module _ {Phc : Type 0} (parse_phc : String → Option Phc) (matches : String → Phc → Bool)
      (canonicalize : Disk → FilePath → Option FilePath)
      (encrypt : List Recipient → List (List ℕ) → Bool → List (List ℕ) × Bool) (cfg : Config)
      (w : World) (s t : System) (backend : ReoBackend Recipient) where
    -- Let a server be launched with a configuration that validation accepts, whose cap is a `u32`.
    -- Whatever the gate is asked, whoever asks for details and sends which requests, in any order with
    -- the reports of logouts, the reaper's ticks and the reloads, successful or not: the accounts and
    -- limits in force are those of one configuration that passed validation; the global count is the
    -- number of live sessions and fits in a `u32`; and every user ever served is a camera or a viewer
    -- of a configuration that passed validation, with the login and the rights that it gives them.
    pub launched-Sane :
        validate parse_recipient cfg ≡ ok tt
        → cfg.limits.max_connections ≤ u32_max
        → launch parse_recipient cfg w ≡ ok (s, backend)
        → Reach parse_recipient parse_phc matches canonicalize encrypt backend s t
        → Sane parse_recipient t
    launched-Sane valid fits h r =
        Reach-Sane parse_recipient parse_phc matches canonicalize encrypt backend r
          (launch-Sane cfg w s backend valid fits h)

    -- Let `f` be a finished file before the server is launched: it is no staging name and no probe
    -- file in a quarantine directory, and it shares its inode with none of these. Then in every state
    -- that the launched server comes to, whatever its clients, the reaper and the reloads do and whatever
    -- calls fail, the file has its name, its inode and its bytes, provided the other processes of the
    -- system leave it so.
    pub launched-Kept :
        (f : FilePath) (i : ℕ) (b : List ℕ) (solid : Scratch f → ⊥)
        → All (Respects Scratch f i b solid) w.turns
        → Kept Scratch f i b w.disk
        → launch parse_recipient cfg w ≡ ok (s, backend)
        → Reach parse_recipient parse_phc matches canonicalize encrypt backend s t
        → Kept Scratch f i b t.world.disk
    launched-Kept f i b solid respects kept h r =
        (Reach-Safe f i b solid parse_recipient parse_phc matches canonicalize encrypt backend r (
          subst (λ (x : System). Safe f i b solid x.world) (sym (launch-idle cfg w s backend h))
            (start-Safe f i b solid cfg w (respects, kept)))).1
