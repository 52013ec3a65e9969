-- ===== src/Backend/Immutable.antt =====
-- About all methods of `ReoBackend` in src/backend.rs: finished files under the requests of clients.
use ftp_reolink.Base.{
  ℕ, String, ◌≡◌, refl, Bool, true, false, Option, none, some, List, inl, inr, nat_eq,
  if◌then◌else◌,
}
use ftp_reolink.Path.{FilePath, file_name}
use ftp_reolink.Append.{is_reolink_test_file}
use ftp_reolink.Account.{Role, uploader, viewing}
use ftp_reolink.Auth.{ReoUser}
use ftp_reolink.Disk.{Disk}
use ftp_reolink.Disk.Act.{Turn, Act, ◌>>=◌}
use ftp_reolink.Disk.Keeping.{
  Kept, Respects, Sound, Sound-wrap, Sound-bind, Sound-pure, Sound-raise, Sound-create_dirs,
}
use ftp_reolink.Disk.Triple.{Stable}
use ftp_reolink.Store.{Input, age_suffix}
use ftp_reolink.Backend.{Op, user_view, StorageError, file_name_not_allowed, of_io}
use ftp_reolink.Backend.Handlers
use ftp_reolink.Backend.Putting.{quarantine-Keeps, put_resolved-Keeps}
use ftp_reolink.Backend.Looking.{
  Quiet-require, Quiet-resolved, metadata-Quiet, list-Quiet, get-Quiet, cwd-Quiet,
}
use ftp_reolink.Backend.Requests.{Scratch, Request, forget, perform}

module _ {Recipient : Type 0} (canonicalize : Disk → FilePath → Option FilePath)
    (encrypt : List Recipient → List (List ℕ) → Bool → List (List ℕ) × Bool)
    (backend : Handlers.ReoBackend Recipient) where
  module _ (f : FilePath) (i : ℕ) (b : List ℕ) (solid : Scratch f → ⊥) where
    abbrev Keeps : {E A : Type 0} → Act E A → Type 0
    Keeps = Sound Scratch f i b solid

    abbrev R : Turn → Type 0
    R = Respects Scratch f i b solid

    abbrev K : Disk → Type 0
    K = Kept Scratch f i b

    stable : Stable R K
    stable t r = r

    and_then :
        {E A B : Type 0} (m : Act E A) (g : A → Act E B)
        → Keeps m
        → ((a : A) → Keeps (g a))
        → Keeps (m >>= g)
    and_then = Sound-bind Scratch f i b solid

    forgotten : {A : Type 0} (m : Act StorageError A) → Keeps m → Keeps (forget m)
    forgotten m h = and_then m _ h λ a. Sound-pure Scratch f i b solid tt

    put_named-Keeps :
        (user : ReoUser) (input : Input) (path : FilePath) (start : ℕ) (home : FilePath)
        (name : String)
        → Keeps (Handlers.put_named canonicalize encrypt backend user input path start home name)
    unfolding Handlers.put_named
    put_named-Keeps user input path start home name = go (is_reolink_test_file name) refl
      where
        go :
            (t : Bool)
            → is_reolink_test_file name ≡ t
            → Keeps (
                if t
                then Handlers.quarantine home name input
                else (Handlers.resolved canonicalize encrypt (user_view user) path >>= λ place.
                    Handlers.put_resolved canonicalize encrypt backend input start place))
        go true e = quarantine-Keeps Scratch f i b solid home name input (inr (home, name, refl, e))
        go false e =
            and_then _ _ (Quiet-resolved R K stable canonicalize encrypt (user_view user) path)
              λ place.
                put_resolved-Keeps Scratch f i b solid canonicalize encrypt backend input start
                  place (inl (place, refl)) (inl (age_suffix place, refl))

    put-Keeps :
        (user : ReoUser) (input : Input) (path : FilePath) (start : ℕ)
        → Keeps (Handlers.put canonicalize encrypt backend user input path start)
    unfolding Handlers.put
    put-Keeps user input path start = and_then _ _ (Quiet-require R K stable user.role Op.put) λ u.
        and_then _ _ (has_home user.role) λ home.
          and_then _ _ (has_name (file_name path))
            λ name. put_named-Keeps user input path start home name
      where
        has_home : (role : Role) → Keeps (Handlers.upload_home role)
        has_home (uploader home) = Sound-pure Scratch f i b solid home
        has_home (viewing scope) = Sound-raise Scratch f i b solid _

        has_name : (o : Option String) → Keeps (Handlers.or_raise o file_name_not_allowed)
        has_name (some name) = Sound-pure Scratch f i b solid name
        has_name none = Sound-raise Scratch f i b solid _

    mkd-Keeps :
        (user : ReoUser) (path : FilePath) → Keeps (Handlers.mkd canonicalize encrypt user path)
    unfolding Handlers.mkd
    mkd-Keeps user path = and_then _ _ (Quiet-require R K stable user.role Op.mkd) λ u.
        and_then _ _ (Quiet-resolved R K stable canonicalize encrypt (user_view user) path) λ place.
          Sound-wrap Scratch f i b solid _ of_io (Sound-create_dirs Scratch f i b solid place)

    pub perform-Keeps :
        (user : ReoUser) (r : Request) → Keeps (perform canonicalize encrypt backend user r)
    unfolding perform Handlers.deny
    perform-Keeps user (Request.metadata p) =
        forgotten _ (metadata-Quiet R K stable canonicalize encrypt user p)
    perform-Keeps user (Request.list p) =
        forgotten _ (list-Quiet R K stable canonicalize encrypt user p)
    perform-Keeps user (Request.mkd p) = mkd-Keeps user p
    perform-Keeps user (Request.rmd p) = Sound-raise Scratch f i b solid _
    perform-Keeps user (Request.del p) = Sound-raise Scratch f i b solid _
    perform-Keeps user (Request.cwd p) = cwd-Quiet R K stable canonicalize encrypt user p
    perform-Keeps user (Request.rename p q) = Sound-raise Scratch f i b solid _
    perform-Keeps user (Request.get p n) =
        forgotten _ (get-Quiet R K stable canonicalize encrypt user p n)
    perform-Keeps user (Request.put input p n) = forgotten _ (put-Keeps user input p n)
