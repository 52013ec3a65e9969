-- ===== src/Backend/Capability.antt =====
-- About `capability_allowed` of src/backend.rs: what it means for the requests of each role.
use mathlib.Core.Path.{subst}
use ftp_reolink.Base.{ℕ, ◌≡◌, refl, sym, Bool, false, Option, List, Result, err, All, nat_eq}
use ftp_reolink.Path.{FilePath}
use ftp_reolink.Scope.{ScopeMap}
use ftp_reolink.Account.{Role, uploader, viewing}
use ftp_reolink.Auth.{ReoUser}
use ftp_reolink.Disk.{Disk}
use ftp_reolink.Disk.Act.{Turn, World, raise, bind_err}
use ftp_reolink.Disk.Triple.{Stable}
use ftp_reolink.Backend.{Op, capability_allowed, StorageError, permission_denied}
use ftp_reolink.Backend.Handlers
use ftp_reolink.Backend.Looking.{
  Quiet-pure, Quiet-bind, metadata-Quiet, list-Quiet, get-Quiet, cwd-Quiet,
}
use ftp_reolink.Backend.Requests.{Request, op_of, perform}

-- What the roles keep from a user: an uploader never reads, a viewer never writes, and nobody removes
-- or renames.
abbrev pub Forbidden : Role → Request → Type 0
Forbidden role (Request.rmd p) = Unit
Forbidden role (Request.del p) = Unit
Forbidden role (Request.rename p q) = Unit
Forbidden (uploader home) (Request.get p n) = Unit
Forbidden (viewing scope) (Request.put i p n) = Unit
Forbidden (viewing scope) (Request.mkd p) = Unit
Forbidden role r = ⊥

module _ {Recipient : Type 0} (canonicalize : Disk → FilePath → Option FilePath)
    (encrypt : List Recipient → List (List ℕ) → Bool → List (List ℕ) × Bool)
    (backend : Handlers.ReoBackend Recipient) where
  requires :
      (role : Role) (op : Op) (w : World)
      → capability_allowed role op ≡ false
      → Handlers.require role op w ≡ (err permission_denied, w)
  unfolding Handlers.require raise
  requires role op w h = rw h

  perform_denied :
      (user : ReoUser) (r : Request) (w : World)
      → capability_allowed user.role (op_of r) ≡ false
      → perform canonicalize encrypt backend user r w ≡ (err permission_denied, w)
  unfolding perform Handlers.metadata Handlers.list Handlers.mkd Handlers.cwd Handlers.get
      Handlers.put Handlers.deny raise
  perform_denied user (Request.metadata p) w h =
      bind_err _ _ (bind_err _ _ (requires user.role Op.metadata w h))
  perform_denied user (Request.list p) w h =
      bind_err _ _ (bind_err _ _ (requires user.role Op.list w h))
  perform_denied user (Request.mkd p) w h = bind_err _ _ (requires user.role Op.mkd w h)
  perform_denied user (Request.rmd p) w h = refl
  perform_denied user (Request.del p) w h = refl
  perform_denied user (Request.cwd p) w h = bind_err _ _ (requires user.role Op.cwd w h)
  perform_denied user (Request.rename p q) w h = refl
  perform_denied user (Request.get p n) w h =
      bind_err _ _ (bind_err _ _ (requires user.role Op.get w h))
  perform_denied user (Request.put i p n) w h =
      bind_err _ _ (bind_err _ _ (requires user.role Op.put w h))

  not_allowed :
      (role : Role) (r : Request) → Forbidden role r → capability_allowed role (op_of r) ≡ false
  unfolding capability_allowed
  not_allowed (uploader home) (Request.metadata p) h = absurd h
  not_allowed (uploader home) (Request.list p) h = absurd h
  not_allowed (uploader home) (Request.cwd p) h = absurd h
  not_allowed (uploader home) (Request.mkd p) h = absurd h
  not_allowed (uploader home) (Request.put i p n) h = absurd h
  not_allowed (uploader home) (Request.get p n) h = refl
  not_allowed (uploader home) (Request.rmd p) h = refl
  not_allowed (uploader home) (Request.del p) h = refl
  not_allowed (uploader home) (Request.rename p q) h = refl
  not_allowed (viewing scope) (Request.metadata p) h = absurd h
  not_allowed (viewing scope) (Request.list p) h = absurd h
  not_allowed (viewing scope) (Request.cwd p) h = absurd h
  not_allowed (viewing scope) (Request.get p n) h = absurd h
  not_allowed (viewing scope) (Request.mkd p) h = refl
  not_allowed (viewing scope) (Request.put i p n) h = refl
  not_allowed (viewing scope) (Request.rmd p) h = refl
  not_allowed (viewing scope) (Request.del p) h = refl
  not_allowed (viewing scope) (Request.rename p q) h = refl

  -- An uploader's download, a viewer's upload or new directory, and anybody's removal or renaming, of
  -- whatever path and from whatever offset, is answered with a denial: no call is made, and the disk
  -- is as it was.
  pub perform-Forbidden :
      (user : ReoUser) (r : Request) (w : World)
      → Forbidden user.role r
      → perform canonicalize encrypt backend user r w ≡ (err permission_denied, w)
  perform-Forbidden user r w h = perform_denied user r w (not_allowed user.role r h)

  denied :
      (K : Disk → Type 0) (user : ReoUser) (r : Request) (w : World)
      → capability_allowed user.role (op_of r) ≡ false
      → K w.disk
      → K (perform canonicalize encrypt backend user r w).1.disk
  denied K user r w h k =
      subst (λ (x : Result StorageError (Unit {0}) × World). K x.1.disk)
        (sym (perform_denied user r w h)) k

  -- A viewer changes nothing: whatever property `K` of the disk the other sessions leave alone, a
  -- viewer's request, of any kind and however it ends, leaves it alone too.
  pub viewer_keeps :
      (R : Turn → Type 0) (K : Disk → Type 0) (stable : Stable R K) (user : ReoUser)
      (scope : ScopeMap) (r : Request)
      → user.role ≡ viewing scope
      → (w : World) → All R w.turns
      → K w.disk
      → K (perform canonicalize encrypt backend user r w).1.disk
  unfolding perform capability_allowed Handlers.deny raise
  viewer_keeps R K stable user scope (Request.metadata p) h w t k =
      ((Quiet-bind R K stable _ _ (metadata-Quiet R K stable canonicalize encrypt user p)
          λ a. Quiet-pure R K stable tt).at
        w t k).1
  viewer_keeps R K stable user scope (Request.list p) h w t k =
      ((Quiet-bind R K stable _ _ (list-Quiet R K stable canonicalize encrypt user p)
          λ a. Quiet-pure R K stable tt).at
        w t k).1
  viewer_keeps R K stable user scope (Request.cwd p) h w t k =
      ((cwd-Quiet R K stable canonicalize encrypt user p).at w t k).1
  viewer_keeps R K stable user scope (Request.get p n) h w t k =
      ((Quiet-bind R K stable _ _ (get-Quiet R K stable canonicalize encrypt user p n)
          λ a. Quiet-pure R K stable tt).at
        w t k).1
  viewer_keeps R K stable user scope (Request.mkd p) h w t k =
      denied K user (Request.mkd p) w (rw h) k
  viewer_keeps R K stable user scope (Request.rmd p) h w t k = k
  viewer_keeps R K stable user scope (Request.del p) h w t k = k
  viewer_keeps R K stable user scope (Request.rename p q) h w t k = k
  viewer_keeps R K stable user scope (Request.put i p n) h w t k =
      denied K user (Request.put i p n) w (rw h) k
