-- ===== src/Backend/Looking.antt =====
-- About the methods of src/backend.rs that only look: `metadata`, `list`, `get` and `cwd`.
use mathlib.Core.Path.{subst}
use ftp_reolink.Base.{
  ℕ, String, ◌≡◌, refl, sym, Bool, true, false, Option, none, some, List, [], ◌∷◌, ltb,
  if◌then◌else◌, arith,
}
use ftp_reolink.Path.{FilePath, join_name}
use ftp_reolink.Scope.{ScopeMap}
use ftp_reolink.Account.{Role}
use ftp_reolink.Auth.{ReoUser}
use ftp_reolink.Disk.{
  Disk, FileMetadata, Effect, metadata_effect, read_open_effect, read_dir_effect,
}
use ftp_reolink.Disk.Act.{Turn, Act, call, pure, raise, wrap_err, attempt, ◌>>=◌}
use ftp_reolink.Disk.Triple.{
  Ensures, Stable, Ensures-call, Ensures-bind, Ensures-pure, Ensures-raise, Ensures-attempt,
  Ensures-wrap_err,
}
use ftp_reolink.Backend.{
  Op, capability_allowed, user_view, StorageError, of_io, permanent_directory_not_available,
  missing_file, missing_directory, hidden, synthesized, viewer_at_root, Fileinfo,
}
use ftp_reolink.Backend.Handlers.{
  allow_if, require, step_effect, seek_effect, listed_before, collect, resolved, metadata,
  list_place, list, get, entered, cwd_place, cwd,
}

module _ (R : Turn → Type 0) (K : Disk → Type 0) (stable : Stable R K) where
  abbrev pub Quiet : {E A : Type 0} → Act E A → Type 0
  Quiet m = Ensures R K m (λ r d. K d)

  pub Quiet-pure : {E A : Type 0} (a : A) → Quiet (pure {E = E} a)
  Quiet-pure a = Ensures-pure a (λ d k. k)

  pub Quiet-raise : {E A : Type 0} (e : E) → Quiet (raise {A = A} e)
  Quiet-raise e = Ensures-raise e (λ d k. k)

  pub Quiet-wrap : {E F A : Type 0} (m : Act E A) (g : E → F) → Quiet m → Quiet (wrap_err g m)
  Quiet-wrap m g h = Ensures-wrap_err m h g (λ a d k. k) (λ a d k. k)

  pub Quiet-attempt : {E F A : Type 0} (m : Act E A) → Quiet m → Quiet (attempt {F = F} m)
  Quiet-attempt m h = Ensures-attempt m h (λ r d k. k)

  pub Quiet-bind :
      {E A B : Type 0} (m : Act E A) (g : A → Act E B)
      → Quiet m
      → ((a : A) → Quiet (g a))
      → Quiet (m >>= g)
  Quiet-bind m g hm hg = Ensures-bind m g hm hg (λ e d k. k)

  look : {A : Type 0} (e : Effect A) → ((d : Disk) → (e d).1 ≡ d) → Quiet (call e)
  look e h = Ensures-call (λ r d. K d) e stable (λ d k. subst K (sym (h d)) k) (λ t r q d k. k)

  pub Quiet-metadata : (q : FilePath) → Quiet (call (metadata_effect q))
  unfolding metadata_effect
  Quiet-metadata q = look (metadata_effect q) looks
    where
      looks : (d : Disk) → (metadata_effect q d).1 ≡ d
      looks d = ground arith

  Quiet-read_open : (q : FilePath) → Quiet (call (read_open_effect q))
  unfolding read_open_effect
  Quiet-read_open q = look (read_open_effect q) looks
    where
      looks : (d : Disk) → (read_open_effect q d).1 ≡ d
      looks d = ground arith

  pub Quiet-read_dir : (q : FilePath) → Quiet (call (read_dir_effect q))
  unfolding read_dir_effect
  Quiet-read_dir q = look (read_dir_effect q) looks
    where
      looks : (d : Disk) → (read_dir_effect q d).1 ≡ d
      looks d = ground arith

  pub Quiet-step : Quiet (wrap_err of_io (call step_effect))
  Quiet-step = Quiet-wrap (call step_effect) of_io (look step_effect (λ d. refl))

  Quiet-allow : (b : Bool) → Quiet (allow_if b)
  Quiet-allow true = Quiet-pure tt
  Quiet-allow false = Quiet-raise _

  pub Quiet-require : (role : Role) (op : Op) → Quiet (require role op)
  unfolding require
  Quiet-require role op = Quiet-allow (capability_allowed role op)

  Quiet-listed_before :
      (b : Bool) (p : FilePath) (name : String) (rest : Act StorageError (List Fileinfo))
      → Quiet rest
      → Quiet (listed_before b p name rest)
  Quiet-listed_before true p name rest h = h
  Quiet-listed_before false p name rest h =
      Quiet-bind _ _ (Quiet-attempt _ (Quiet-metadata (join_name p name)))
        λ answer. Quiet-bind rest _ h λ infos. Quiet-pure _

  Quiet-collect : (p : FilePath) (names : List String) → Quiet (collect p names)
  unfolding collect
  Quiet-collect p [] = Quiet-bind _ _ Quiet-step λ u. Quiet-pure _
  Quiet-collect p (name ∷ names) =
      Quiet-bind _ _ Quiet-step
        λ u. Quiet-listed_before (hidden name) p name (collect p names) (Quiet-collect p names)

  Quiet-entered : (m : FileMetadata) → Quiet (entered m)
  Quiet-entered m = allowed m.is_dir
    where
      allowed :
          (b : Bool)
          → Quiet (if b then pure tt else raise {A = Unit {0}} permanent_directory_not_available)
      allowed true = Quiet-pure tt
      allowed false = Quiet-raise _

  module _ {Recipient : Type 0} (canonicalize : Disk → FilePath → Option FilePath)
      (encrypt : List Recipient → List (List ℕ) → Bool → List (List ℕ) × Bool) where
    pub Quiet-resolved :
        (view : ScopeMap) (p : FilePath) → Quiet (resolved canonicalize encrypt view p)
    unfolding resolved
    Quiet-resolved view p = record { at = λ w r k. (r, k) }

    pub metadata-Quiet :
        (user : ReoUser) (p : FilePath) → Quiet (metadata canonicalize encrypt user p)
    unfolding metadata
    metadata-Quiet user p = Quiet-bind _ _ (Quiet-require user.role Op.metadata) λ u.
        Quiet-bind _ _ (Quiet-resolved (user_view user) p) λ place.
          Quiet-bind _ _ (Quiet-wrap _ missing_file (Quiet-metadata place)) λ m. Quiet-pure _

    list_place-Quiet :
        (user : ReoUser) (p : FilePath) → Quiet (list_place canonicalize encrypt user p)
    unfolding list_place
    list_place-Quiet user p = Quiet-bind _ _ (Quiet-resolved (user_view user) p) λ place.
        Quiet-bind _ _ (Quiet-wrap _ missing_directory (Quiet-read_dir place))
          λ names. Quiet-collect place names

    pub list-Quiet : (user : ReoUser) (p : FilePath) → Quiet (list canonicalize encrypt user p)
    unfolding list
    list-Quiet user p =
        Quiet-bind _ _ (Quiet-require user.role Op.list) λ u. go (synthesized user.role p)
      where
        go :
            (o : Option (List Fileinfo))
            → Quiet (elim o [
              | some entries ↦ pure entries
              | none ↦ list_place canonicalize encrypt user p
            ])
        go (some entries) = Quiet-pure entries
        go none = list_place-Quiet user p

    pub get-Quiet :
        (user : ReoUser) (p : FilePath) (n : ℕ) → Quiet (get canonicalize encrypt user p n)
    unfolding get
    get-Quiet user p n = Quiet-bind _ _ (Quiet-require user.role Op.get) λ u.
        Quiet-bind _ _ (Quiet-resolved (user_view user) p) λ place.
          Quiet-bind _ _ (Quiet-wrap _ missing_file (Quiet-read_open place))
            λ node. Quiet-bind _ _ (seek (ltb 0 n)) λ position. Quiet-pure (node, position)
      where
        seek : (b : Bool) → Quiet (if b then wrap_err of_io (call (seek_effect n)) else pure 0)
        seek true = Quiet-wrap (call (seek_effect n)) of_io (look (seek_effect n) (λ d. refl))
        seek false = Quiet-pure 0

    cwd_place-Quiet :
        (user : ReoUser) (p : FilePath) → Quiet (cwd_place canonicalize encrypt user p)
    unfolding cwd_place
    cwd_place-Quiet user p = Quiet-bind _ _ (Quiet-resolved (user_view user) p) λ place.
        Quiet-bind _ _ (Quiet-wrap _ missing_directory (Quiet-metadata place)) λ m. Quiet-entered m

    pub cwd-Quiet : (user : ReoUser) (p : FilePath) → Quiet (cwd canonicalize encrypt user p)
    unfolding cwd
    cwd-Quiet user p =
        Quiet-bind _ _ (Quiet-require user.role Op.cwd) λ u. go (viewer_at_root user.role p)
      where
        go : (b : Bool) → Quiet (if b then pure tt else cwd_place canonicalize encrypt user p)
        go true = Quiet-pure tt
        go false = cwd_place-Quiet user p
