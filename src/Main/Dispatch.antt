-- ===== src/Main/Dispatch.antt =====
-- src/main.rs: `main` past the parser of arguments, as the choice of a command.
use ftp_reolink.Base.{ℕ, String, Bool, Option, List, Result, ok, err}
use ftp_reolink.Path.{FilePath}
use ftp_reolink.Config.{Config, ConfigError}
use ftp_reolink.Server.{Running}
use ftp_reolink.Retention.{Entries, SweepReport}
use ftp_reolink.Cli as Cli
use ftp_reolink.Cli.{Command}
use ftp_reolink.Disk.{IoError}
use ftp_reolink.Disk.Act.{Act, World, pure, ◌>>=◌}
use ftp_reolink.Main.{
  MainError, lift, serve, cleanup, nftables, add_camera, add_viewer, print_hash, gencert, genkey,
  decrypt,
}

-- What the program finds around it, and the other crates.
pub record Surroundings (Recipient Identity : Type 0) : Type 0 where
  pub parsed : FilePath → Result ConfigError Config
  pub reoftpd_config : Option FilePath
  pub env_password : Option String
  pub line : Result IoError String
  pub salt : String
  pub now : ℕ
  pub archive : Entries
  pub faults : List Bool
  pub cuts : List ℕ
  pub key_cuts : List ℕ
  pub keypair : String × String
  pub parse_recipient : String → Option Recipient
  pub parse_identity : String → Option Identity
  pub argon2 : String → String → Option String
  pub rcgen : List String → Option (String × String)
  pub open_age : Identity → List ℕ → Option (List (List ℕ) × Bool)
  pub from_utf8 : List ℕ → Option String

-- The server runs, the archive is swept, a text is printed, or none. (What a sweep that failed has
-- left of the archive is told by `cleanup`.)
pub data Output : Type 0 where
  running : Running → Output
  swept : Entries → SweepReport → Output
  printed : String → Output
  silent : Output

abbrev pub ending : {A : Type 0} → (A → Output) → Act MainError A → Act MainError Output
ending f m = m >>= λ a. pure (f a)

abbrev pub swept_if :
    Entries × Result MainError SweepReport → World → Result MainError Output × World
swept_if (es, ok report) w = (ok (swept es report), w)
swept_if (es, err e) w = (err e, w)

module _ {Recipient Identity : Type 0} (s : Surroundings Recipient Identity) where
  unfoldable pub main : Command → Act MainError Output
  main (Cli.serve config) = ending running (serve s.parse_recipient (s.parsed config))
  main (Cli.cleanup config dry_run) =
      swept_if (cleanup s.parse_recipient (s.parsed config) dry_run s.now s.archive s.faults)
  main (Cli.add_camera name username require_tls) =
      ending (λ u. silent)
        (add_camera s.argon2 s.reoftpd_config s.env_password s.line s.salt name username require_tls
          s.cuts)
  main (Cli.add_viewer name scope) =
      ending (λ u. silent)
        (add_viewer s.argon2 s.reoftpd_config s.env_password s.line s.salt name scope s.cuts)
  main Cli.hash_password = ending printed (print_hash s.argon2 s.env_password s.line s.salt)
  main (Cli.nftables config) =
      ending printed (lift (λ e. e) (nftables s.parse_recipient (s.parsed config)))
  main (Cli.gencert hostnames cert key) =
      ending (λ u. silent) (gencert s.rcgen hostnames cert key s.cuts s.key_cuts)
  main (Cli.genkey output) = ending printed (genkey s.keypair output s.cuts)
  main (Cli.decrypt identity output files) =
      ending (λ u. silent) (decrypt s.open_age s.from_utf8 s.parse_identity identity output files)
