-- ===== src/Backend/Own.antt =====
-- About `put` of `ReoBackend` in src/backend.rs: the cameras are apart from one another.
use mathlib.Core.Option
use ftp_reolink.Base.{
  ℕ, String, ◌≡◌, refl, ap, ◌∙◌, ◌⊎◌, inl, inr, Bool, true, false, Option, none, some, List, Result,
  ok, err, map_err, All, arith, if◌then◌else◌,
}
use ftp_reolink.Path.{FilePath, join_name, file_name}
use ftp_reolink.Path.Laws.{Below}
use ftp_reolink.Scope.{single, resolve}
use ftp_reolink.Scope.Jail.{Grants, resolve-Below}
use ftp_reolink.Append.{quarantine_dir, staging_path, is_reolink_test_file}
use ftp_reolink.Account.{uploader}
use ftp_reolink.Auth.{ReoUser}
use ftp_reolink.Disk.{Disk}
use ftp_reolink.Disk.Act.{World, Act, pure, ◌>>=◌}
use ftp_reolink.Disk.Keeping.{Kept, Respects, Sound, Sound-bind, Sound-pure, Sound-raise}
use ftp_reolink.Disk.Triple.{Ensures, Ensures-bind, Ensures-given, Ensures-weaken}
use ftp_reolink.Store.{Input, age_suffix}
use ftp_reolink.Backend.{Op, user_view, path_err_to_storage, file_name_not_allowed}
use ftp_reolink.Backend.Handlers
use ftp_reolink.Backend.Looking.{Quiet-require}
use ftp_reolink.Backend.Putting.{quarantine-Keeps, put_resolved-Keeps}

-- The place lies at or below what the home really is, on some disk.
abbrev pub Inside : (Disk → FilePath → Option FilePath) → FilePath → FilePath → Type 0
Inside canonicalize home place =
    (d : Disk) × (base : FilePath) × (canonicalize d home ≡ some base) × Below base place

-- What an upload to the home writes to: the staging names of the places in it, and the files of its
-- quarantine directory.
abbrev pub Own : (Disk → FilePath → Option FilePath) → FilePath → FilePath → Type 0
Own canonicalize home q =
    ((place : FilePath) × Inside canonicalize home place
      × ((q ≡ staging_path place) ⊎ (q ≡ staging_path (age_suffix place))))
    ⊎ ((name : String) × (q ≡ join_name (join_name home quarantine_dir) name))

abbrev pub camera : String → FilePath → Bool → ReoUser
camera login home require_tls = record {
  login = login;
  role = uploader home;
  require_tls = require_tls;
}

map_err-eq-ok :
    {E F A : Type 0} (f : E → F) (r : Result E A) {a : A} → map_err f r ≡ ok a → r ≡ ok a
map_err-eq-ok f (ok b) e = ground arith
map_err-eq-ok f (err x) e = cc

granted_home :
    (canonicalize : FilePath → Option FilePath) (home base base_c : FilePath) (parts : List String)
    → Grants (single home) parts base
    → canonicalize base ≡ some base_c
    → canonicalize home ≡ some base_c
unfolding single
granted_home canonicalize home base base_c parts (inl e) real =
    ap canonicalize (Option.some-injective home base e) ∙ real
granted_home canonicalize home base base_c parts (inr (e, _)) real = cc

single-Inside :
    (canonicalize : Disk → FilePath → Option FilePath) (home path place : FilePath) (d : Disk)
    → resolve (canonicalize d) (single home) path ≡ ok place
    → Inside canonicalize home place
single-Inside canonicalize home path place d h =
    let (parts, names, scope) = resolve-Below (canonicalize d) (single home) path place h in
    (
      d,
      scope.base_c,
      granted_home (canonicalize d) home scope.base scope.base_c parts scope.granted scope.real,
      scope.below,
    )

module _ {Recipient : Type 0} (canonicalize : Disk → FilePath → Option FilePath)
    (encrypt : List Recipient → List (List ℕ) → Bool → List (List ℕ) × Bool)
    (backend : Handlers.ReoBackend Recipient) (home f : FilePath) (i : ℕ) (b : List ℕ)
    (solid : Own canonicalize home f → ⊥) where
  abbrev Mine : FilePath → Type 0
  Mine = Own canonicalize home

  abbrev Keeps : {E A : Type 0} → Act E A → Type 0
  Keeps = Sound Mine f i b solid

  abbrev K : Disk → Type 0
  K = Kept Mine f i b

  resolved-Inside :
      (path : FilePath)
      → Ensures
          (Respects Mine f i b solid)
          K
          (Handlers.resolved canonicalize encrypt (single home) path)
          (λ r d. K d × ((place : FilePath) → r ≡ ok place → Inside canonicalize home place))
  unfolding Handlers.resolved
  resolved-Inside path = record {
    at = λ w r k. (
      r,
      (
        k,
        λ place e. single-Inside canonicalize home path place w.disk (
            map_err-eq-ok path_err_to_storage (resolve (canonicalize w.disk) (single home) path) e),
      ),
    );
  }

  put_at :
      (path : FilePath) (input : Input) (start : ℕ)
      → Keeps (
          Handlers.resolved canonicalize encrypt (single home) path >>= λ place.
          Handlers.put_resolved canonicalize encrypt backend input start place)
  put_at path input start =
      Ensures-bind _ _ (resolved-Inside path)
        (λ place.
          Ensures-given _ (Inside canonicalize home place) (λ d k. k.1 place refl)
            (λ inside.
              Ensures-weaken _ (λ d k. k.0)
                (put_resolved-Keeps Mine f i b solid canonicalize encrypt backend input start place
                  (inl (place, inside, inl refl)) (inl (place, inside, inr refl)))))
        (λ e d k. k.0)

  after_pure : {E A B : Type 0} (a : A) (g : A → Act E B) → Keeps (g a) → Keeps (pure a >>= g)
  unfolding ◌>>=◌ pure
  after_pure a g h = record { at = h.at }

  put_named-Keeps :
      (login : String) (require_tls : Bool) (input : Input) (path : FilePath) (start : ℕ)
      (name : String)
      → Keeps (
          Handlers.put_named canonicalize encrypt backend
            (camera login home require_tls)
            input
            path
            start
            home
            name)
  unfolding Handlers.put_named user_view
  put_named-Keeps login require_tls input path start name = go (is_reolink_test_file name)
    where
      go :
          (t : Bool)
          → Keeps (
              if t
              then Handlers.quarantine home name input
              else (Handlers.resolved canonicalize encrypt (single home) path >>= λ place.
                  Handlers.put_resolved canonicalize encrypt backend input start place))
      go true = quarantine-Keeps Mine f i b solid home name input (inr (name, refl))
      go false = put_at path input start

  put-Keeps :
      (login : String) (require_tls : Bool) (input : Input) (path : FilePath) (start : ℕ)
      → Keeps (
          Handlers.put canonicalize encrypt backend
            (camera login home require_tls)
            input
            path
            start)
  unfolding Handlers.put
  put-Keeps login require_tls input path start =
      Sound-bind Mine f i b solid _ _
        (Quiet-require (Respects Mine f i b solid) K (λ t r. r) (uploader home) Op.put)
        λ u. after_pure home _ (named (file_name path))
    where
      has_name : (o : Option String) → Keeps (Handlers.or_raise o file_name_not_allowed)
      has_name (some name) = Sound-pure Mine f i b solid name
      has_name none = Sound-raise Mine f i b solid _

      named :
          (o : Option String)
          → Keeps (
              Handlers.or_raise o file_name_not_allowed >>= λ name.
              Handlers.put_named canonicalize encrypt backend
                (camera login home require_tls)
                input
                path
                start
                home
                name)
      named o =
          Sound-bind Mine f i b solid _ _ (has_name o)
            (λ name. put_named-Keeps login require_tls input path start name)

-- An upload of a camera touches nothing of the others. Let its own names be the staging names of the
-- places at or below what its home really is, on any disk, with `.age` or without, and the files of
-- its quarantine directory. A file that is not one of these and shares its inode with none of them,
-- be it finished, staged or a probe file, keeps its name, its inode and its bytes through any upload of
-- the camera, whatever calls fail, and whatever the other sessions do meanwhile as long as that
-- respects the file too.
pub put_keeps :
    {Recipient : Type 0} (canonicalize : Disk → FilePath → Option FilePath)
    (encrypt : List Recipient → List (List ℕ) → Bool → List (List ℕ) × Bool)
    (backend : Handlers.ReoBackend Recipient) (home f : FilePath) (i : ℕ) (b : List ℕ)
    (login : String) (require_tls : Bool) (input : Input) (path : FilePath) (start : ℕ) (w : World)
    → (solid : Own canonicalize home f → ⊥)
    → All (Respects (Own canonicalize home) f i b solid) w.turns
    → Kept (Own canonicalize home) f i b w.disk
    → Kept
        (Own canonicalize home)
        f
        i
        b
        (Handlers.put canonicalize encrypt backend
          (camera login home require_tls)
          input
          path
          start
          w).1.disk
put_keeps canonicalize encrypt backend home f i b login require_tls input path start w solid r k =
    ((put-Keeps canonicalize encrypt backend home f i b solid login require_tls input path start).at
      w r k).1
