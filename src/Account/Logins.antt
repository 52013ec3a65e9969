-- ===== src/Account/Logins.antt =====
-- About `build` of src/account.rs: the account map of a valid configuration, and what displaces what.
use ftp_reolink.Base.{
  ◌≡◌, refl, ◌∙◌, String, true, false, ◌||◌, Option, none, some, List, [], ◌∷◌, arith, map, All,
  string_eq, contains, ok,
}
use ftp_reolink.Base.Dict.{Dict, lookup, lookup-insert, lookup-nil}
use ftp_reolink.Path.{FilePath}
use ftp_reolink.Config.{Config, CameraCfg, ViewerCfg, login, validate}
use ftp_reolink.Config.Valid.{NewLogins, NewViewers, camera_logins, validate-IsValid}
use ftp_reolink.Account.{Accounts, camera_account, viewer_account, add_cameras, add_viewers, build}

module _ (root : FilePath) where
  -- Logins that were taken keep their accounts.
  add_cameras_old :
      (cams : List CameraCfg) (taken : List String) (accounts : Accounts) (u : String)
      → NewLogins cams taken
      → contains taken u ≡ true
      → lookup u (add_cameras root cams accounts) ≡ lookup u accounts
  unfolding add_cameras
  add_cameras_old [] taken accounts u d h = refl
  add_cameras_old (cam ∷ cams) taken accounts u d h =
      add_cameras_old cams (login cam ∷ taken) _ u d.1 (ground arith)
      ∙ (lookup-insert u (login cam) (camera_account root cam) accounts ∙ ground arith)

  add_cameras_each :
      (cams : List CameraCfg) (taken : List String) (accounts : Accounts)
      → NewLogins cams taken
      → All
          (λ cam.
            lookup (login cam) (add_cameras root cams accounts) ≡ some (camera_account root cam))
          cams
  unfolding add_cameras
  add_cameras_each [] taken accounts d = tt
  add_cameras_each (cam ∷ cams) taken accounts d = (
    add_cameras_old cams (login cam ∷ taken) _ (login cam) d.1 (ground arith)
        ∙ (lookup-insert (login cam) (login cam) (camera_account root cam) accounts ∙ ground arith),
    add_cameras_each cams (login cam ∷ taken) _ d.1,
  )

  -- A login that no camera has is not touched.
  add_cameras_other :
      (cams : List CameraCfg) (accounts : Accounts) (u : String)
      → contains (camera_logins cams) u ≡ false
      → lookup u (add_cameras root cams accounts) ≡ lookup u accounts
  unfolding add_cameras
  add_cameras_other [] accounts u h = refl
  add_cameras_other (cam ∷ cams) accounts u h =
      add_cameras_other cams _ u (ground arith)
      ∙ (lookup-insert u (login cam) (camera_account root cam) accounts ∙ ground arith)

abbrev pub viewer_names : List ViewerCfg → List String
viewer_names = map (λ v. v.name)

module _ (root : FilePath) (groups : Dict (List String)) where
  -- Camera logins and the names of earlier viewers keep their accounts.
  add_viewers_old :
      (logins : List String) (vs : List ViewerCfg) (names : List String) (accounts : Accounts)
      (u : String)
      → NewViewers logins vs names
      → (contains logins u || contains names u) ≡ true
      → lookup u (add_viewers root groups vs accounts) ≡ lookup u accounts
  unfolding add_viewers
  add_viewers_old logins [] names accounts u d h = refl
  add_viewers_old logins (v ∷ vs) names accounts u d h =
      add_viewers_old logins vs (v.name ∷ names) _ u d.2 (ground arith)
      ∙ (lookup-insert u v.name (viewer_account root groups v) accounts ∙ ground arith)

  add_viewers_each :
      (logins : List String) (vs : List ViewerCfg) (names : List String) (accounts : Accounts)
      → NewViewers logins vs names
      → All
          (λ v.
            lookup v.name (add_viewers root groups vs accounts)
            ≡ some (viewer_account root groups v))
          vs
  unfolding add_viewers
  add_viewers_each logins [] names accounts d = tt
  add_viewers_each logins (v ∷ vs) names accounts d = (
    add_viewers_old logins vs (v.name ∷ names) _ v.name d.2 (ground arith)
        ∙ (lookup-insert v.name v.name (viewer_account root groups v) accounts ∙ ground arith),
    add_viewers_each logins vs (v.name ∷ names) _ d.2,
  )

  add_viewers_other :
      (vs : List ViewerCfg) (accounts : Accounts) (u : String)
      → contains (viewer_names vs) u ≡ false
      → lookup u (add_viewers root groups vs accounts) ≡ lookup u accounts
  unfolding add_viewers
  add_viewers_other [] accounts u h = refl
  add_viewers_other (v ∷ vs) accounts u h =
      add_viewers_other vs _ u (ground arith)
      ∙ (lookup-insert u v.name (viewer_account root groups v) accounts ∙ ground arith)

  -- The viewers leave the cameras' accounts alone.
  cameras_kept :
      (logins : List String) (vs : List ViewerCfg) (accounts : Accounts) (cams : List CameraCfg)
      → NewViewers logins vs []
      → ((x : String) → contains (camera_logins cams) x ≡ true → contains logins x ≡ true)
      → All (λ cam. lookup (login cam) accounts ≡ some (camera_account root cam)) cams
      → All
          (λ cam.
            lookup (login cam) (add_viewers root groups vs accounts)
            ≡ some (camera_account root cam))
          cams
  cameras_kept logins vs accounts [] d k h = tt
  cameras_kept logins vs accounts (cam ∷ cams) d k h = (
    add_viewers_old logins vs [] accounts (login cam) d (ground (arith, k (login cam))) ∙ h.0,
    cameras_kept logins vs accounts cams d (λ x e. k x (ground arith)) h.1,
  )

-- In the accounts of a configuration that validation accepts, every camera's login leads to that
-- camera's own account and every viewer's name to that viewer's own account, and no other login
-- leads to any.
pub build_accounts :
    {Recipient : Type 0} (parse_recipient : String → Option Recipient) (cfg : Config)
    → validate parse_recipient cfg ≡ ok tt
    → All
        (λ cam. lookup (login cam) (build cfg) ≡ some (camera_account cfg.archive.root cam))
        cfg.camera
      × All
          (λ v. lookup v.name (build cfg) ≡ some (viewer_account cfg.archive.root cfg.group v))
          cfg.viewer
      × ((u : String)
          → contains (camera_logins cfg.camera) u ≡ false
          → contains (viewer_names cfg.viewer) u ≡ false
          → lookup u (build cfg) ≡ none)
unfolding build
build_accounts parse_recipient cfg h =
    let valid = validate-IsValid parse_recipient cfg h in
    let root = cfg.archive.root in
    (
      cameras_kept root cfg.group valid.logins cfg.viewer _ cfg.camera valid.distinct_viewers
          (λ x e. valid.is_logins x ∙ e)
          (add_cameras_each root cfg.camera [] [] valid.distinct_logins),
      add_viewers_each root cfg.group valid.logins cfg.viewer [] _ valid.distinct_viewers,
      λ u c v.
          add_viewers_other root cfg.group cfg.viewer _ u v
          ∙ (add_cameras_other root cfg.camera [] u c ∙ lookup-nil u),
    )
