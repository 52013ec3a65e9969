-- ===== src/System/Keeping.antt =====
-- About the running server of src/server.rs: a finished file under whatever happens.
use ftp_reolink.Base.{ℕ, Bool, String, Option, List, [], ◌∷◌, All, Result, ok, err}
use mathlib.Core.Path.{subst}
use ftp_reolink.Base.{sym}
use ftp_reolink.Path.{FilePath}
use ftp_reolink.Config.{Config, ConfigError, CameraCfg, load}
use ftp_reolink.Disk.{Disk}
use ftp_reolink.Disk.Act.{World}
use ftp_reolink.Disk.Keeping.{Kept, Respects, Sound, Sound-bind, Sound-pure, Sound-create_dirs}
use ftp_reolink.Backend.Handlers.{ReoBackend}
use ftp_reolink.Backend.Requests.{Scratch}
use ftp_reolink.Backend.Immutable.{perform-Keeps}
use ftp_reolink.Server.{Running, home_dir, ensure_home_dirs, reload_loaded, reload_config, start}
use ftp_reolink.System.{
  System, Step, gate, details, request, presence, tick, hangup, Reach, here, later,
}

module _ (f : FilePath) (i : ℕ) (b : List ℕ) (solid : Scratch f → ⊥) where
  -- The file is kept, and the others respect it.
  abbrev pub Safe : World → Type 0
  Safe w = All (Respects Scratch f i b solid) w.turns × Kept Scratch f i b w.disk

  ensure_home_dirs-Sound :
      (root : FilePath) (cams : List CameraCfg)
      → Sound Scratch f i b solid (ensure_home_dirs root cams)
  unfolding ensure_home_dirs
  ensure_home_dirs-Sound root [] = Sound-pure Scratch f i b solid tt
  ensure_home_dirs-Sound root (cam ∷ cams) =
      Sound-bind Scratch f i b solid _ _ (Sound-create_dirs Scratch f i b solid (home_dir root cam))
        (λ u. ensure_home_dirs-Sound root cams)

  pub start-Safe : (cfg : Config) (w : World) → Safe w → Safe (start cfg w).1
  unfolding start
  start-Safe cfg w s = (ensure_home_dirs-Sound cfg.archive.root cfg.camera).at w s.0 s.1

  reload_loaded-Safe :
      (parsed : Result ConfigError Config) (state : Running) (w : World)
      → Safe w
      → Safe (reload_loaded parsed state w).1
  reload_loaded-Safe (err e) state w s = s
  reload_loaded-Safe (ok cfg) state w s =
      (ensure_home_dirs-Sound cfg.archive.root cfg.camera).at w s.0 s.1

  module _ {Recipient : Type 0} (parse_recipient : String → Option Recipient) {Phc : Type 0}
      (parse_phc : String → Option Phc) (matches : String → Phc → Bool)
      (canonicalize : Disk → FilePath → Option FilePath)
      (encrypt : List Recipient → List (List ℕ) → Bool → List (List ℕ) × Bool)
      (backend : ReoBackend Recipient) where
    Step-Safe :
        (s t : System)
        → Step parse_recipient parse_phc matches canonicalize encrypt backend s t
        → Safe s.world
        → Safe t.world
    unfolding reload_config
    Step-Safe s t (gate username creds now e) k = subst (λ (x : System). Safe x.world) (sym e) k
    Step-Safe s t (details principal h e) k = subst (λ (x : System). Safe x.world) (sym e) k
    Step-Safe s t (request user r among e) k =
        subst (λ (x : System). Safe x.world) (sym e)
          ((perform-Keeps canonicalize encrypt backend f i b solid user r).at s.world k.0 k.1)
    Step-Safe s t (presence p u e) k = subst (λ (x : System). Safe x.world) (sym e) k
    Step-Safe s t (tick n now e) k = subst (λ (x : System). Safe x.world) (sym e) k
    Step-Safe s t (hangup parsed fits e) k =
        subst (λ (x : System). Safe x.world) (sym e)
          (reload_loaded-Safe (load parse_recipient parsed) s.running s.world k)

    pub Reach-Safe :
        {s t : System}
        → Reach parse_recipient parse_phc matches canonicalize encrypt backend s t
        → Safe s.world
        → Safe t.world
    Reach-Safe here k = k
    Reach-Safe (later r st) k = Step-Safe _ _ st (Reach-Safe r k)
