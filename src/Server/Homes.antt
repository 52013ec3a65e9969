-- ===== src/Server/Homes.antt =====
-- About `ensure_home_dirs` of src/server.rs.
use ftp_reolink.Base.{◌≡◌, ◌≢◌, refl, List, [], ◌∷◌, some, Result, ok, err, All, arith}
use ftp_reolink.Path.{FilePath, join}
use ftp_reolink.Config.{CameraCfg}
use ftp_reolink.Account.{Role, uploader, viewing, camera_account}
use ftp_reolink.Disk.{dir, Disk, IoError, node_at, create_dirs_effect}
use ftp_reolink.Disk.Laws.{make_dirs_taken, make_dirs_made}
use ftp_reolink.Disk.Act.{Turn, World, call}
use ftp_reolink.Disk.Triple.{Ensures, Ensures-call, Ensures-bind, Ensures-pure, Ensures-strengthen}
use ftp_reolink.Server.{home_dir, ensure_home_dirs}

abbrev IsDir : FilePath → Disk → Type 0
IsDir p d = node_at p d.names ≡ some dir

-- The others remove no directory.
abbrev pub KeepsDirs : Turn → Type 0
KeepsDirs t = (p : FilePath) (d : Disk) → IsDir p d → IsDir p (t.meanwhile d)

abbrev Dirs : List FilePath → Disk → Type 0
Dirs ps d = All (λ p. IsDir p d) ps

Dirs-stable :
    (ps : List FilePath) (d e : Disk)
    → ((p : FilePath) → IsDir p d → IsDir p e)
    → Dirs ps d
    → Dirs ps e
Dirs-stable [] d e h k = tt
Dirs-stable (p ∷ ps) d e h k = (h p k.0, Dirs-stable ps d e h k.1)

create_dirs_keeps : (q p : FilePath) (d : Disk) → IsDir p d → IsDir p (create_dirs_effect q d).1
unfolding create_dirs_effect
create_dirs_keeps q p d k = make_dirs_taken p dir d.names [] q k

create_dirs_makes :
    (q : FilePath) (d : Disk)
    → q ≢ []
    → (create_dirs_effect q d).0 ≡ ok tt
    → IsDir q (create_dirs_effect q d).1
unfolding create_dirs_effect
create_dirs_makes [] d h e = absurd (h refl)
create_dirs_makes (c ∷ q) d h e = make_dirs_made c d.names [] q (ground arith)

join_not_empty : (p q : FilePath) → p ≢ [] → join p q ≢ []
unfolding join
join_not_empty [] q h e = h refl
join_not_empty (c ∷ p) q h e = ground arith

module _ (root : FilePath) (rooted : root ≢ []) where
  abbrev After : List FilePath → {A : Type 0} → Result IoError A → Disk → Type 0
  After ps (ok a) d = Dirs ps d
  After ps (err e) d = Unit

  abbrev Made : List FilePath → List CameraCfg → Result IoError (Unit {0}) → Disk → Type 0
  Made ps cams (ok u) d = Dirs ps d × All (λ cam. IsDir (home_dir root cam) d) cams
  Made ps cams (err e) d = Unit

  made :
      (cam : CameraCfg) (ps : List FilePath) (d : Disk) (r : Result IoError (Unit {0}))
      → (create_dirs_effect (home_dir root cam) d).0 ≡ r
      → Dirs ps d
      → After (home_dir root cam ∷ ps) r (create_dirs_effect (home_dir root cam) d).1
  made cam ps d (err e) h k = tt
  made cam ps d (ok u) h k = (
    create_dirs_makes (home_dir root cam) d (join_not_empty root _ rooted) h,
    Dirs-stable ps d (create_dirs_effect (home_dir root cam) d).1
        (λ p. create_dirs_keeps (home_dir root cam) p d) k,
  )

  regroup :
      (cam : CameraCfg) (cams : List CameraCfg) (ps : List FilePath) (r : Result IoError (Unit {0}))
      (d : Disk)
      → Made (home_dir root cam ∷ ps) cams r d
      → Made ps (cam ∷ cams) r d
  regroup cam cams ps (ok u) d m = (m.0.1, (m.0.0, m.1))
  regroup cam cams ps (err e) d m = tt

  homes :
      (cams : List CameraCfg) (ps : List FilePath)
      → Ensures KeepsDirs (Dirs ps) (ensure_home_dirs root cams) (Made ps cams)
  unfolding ensure_home_dirs
  homes [] ps = Ensures-pure tt (λ d k. (k, tt))
  homes (cam ∷ cams) ps =
      Ensures-bind (call (create_dirs_effect (home_dir root cam))) _
        (Ensures-call (After (home_dir root cam ∷ ps)) (create_dirs_effect (home_dir root cam))
          (λ t r d k. Dirs-stable ps d (t.meanwhile d) (λ p. r p d) k)
          (λ d k. made cam ps d _ refl k) (λ t r q d k. tt))
        (λ u. Ensures-strengthen _ (homes cams (home_dir root cam ∷ ps)) (regroup cam cams ps))
        (λ e d k. tt)

-- The role is that of an uploader whose home is a directory.
abbrev pub HomeIsDir : Role → Disk → Type 0
HomeIsDir (uploader home) d = node_at home d.names ≡ some dir
HomeIsDir (viewing scope) d = ⊥

-- When `ensure_home_dirs` succeeds, the account of every camera is that of an uploader, and the home
-- which that account confines it to is a directory at the end, provided the archive's root is not
-- the empty path and the other sessions remove no directory meanwhile.
pub ensure_home_dirs_lem :
    (root : FilePath) (cams : List CameraCfg) (w : World)
    → root ≢ []
    → All KeepsDirs w.turns
    → (ensure_home_dirs root cams w).0 ≡ ok tt
    → All
        (λ cam. HomeIsDir (camera_account root cam).role (ensure_home_dirs root cams w).1.disk)
        cams
unfolding camera_account
ensure_home_dirs_lem root cams w rooted r h = done _ ((homes root rooted cams []).at w r tt).1 h
  where
    done :
        (x : Result IoError (Unit {0}))
        → Made root rooted [] cams x (ensure_home_dirs root cams w).1.disk
        → x ≡ ok tt
        → All (λ cam. IsDir (home_dir root cam) (ensure_home_dirs root cams w).1.disk) cams
    done (ok u) m e = m.1
    done (err x) m e = cc
