-- ===== src/Backend/RoundTrip.antt =====
-- About `put` and `get` of src/backend.rs, one after the other.
use mathlib.Core.Path.{subst}
use ftp_reolink.Base.{
  String, ℕ, ◌≡◌, refl, sym, ap, ◌∙◌, Bool, true, false, Option, some, none, List, ◌++◌, All,
  Result, ok, map_err, length, ltb, arith, if◌then◌else◌,
}
use ftp_reolink.Path.{FilePath, file_name}
use ftp_reolink.Append.{staging_path, is_reolink_test_file}
use ftp_reolink.Append.Laws.{staging_path-ne}
use ftp_reolink.Scope.{ScopeMap, resolve}
use ftp_reolink.Account.{Role, uploader, viewing}
use ftp_reolink.Auth.{ReoUser}
use ftp_reolink.Disk.{Disk, Node, file, node_at, read_open_effect}
use ftp_reolink.Disk.Act.{World, Turn, Act, call, pure, wrap_err, ◌>>=◌}
use ftp_reolink.Disk.Triple.{
  Ensures, Ensures-bind, Ensures-call, Ensures-wrap_err, Ensures-pure, Ensures-given,
  Ensures-weaken,
}
use ftp_reolink.Store.{Input, store_stream, total_length}
use ftp_reolink.Store.Atomic.{Alone, Ready, joined}
use ftp_reolink.Store.Outcome.{named_length, store_stream_step, store_stream_publishes}
use ftp_reolink.Backend.{
  StorageError, user_view, capability_allowed, store_error_to_storage, missing_file, of_io,
}
use ftp_reolink.Backend.Handlers.{
  ReoBackend, put, put_named, put_resolved, get, require, resolved, seek_effect,
}

module _ {Recipient : Type 0} (canonicalize : Disk → FilePath → Option FilePath)
    (encrypt : List Recipient → List (List ℕ) → Bool → List (List ℕ) × Bool)
    (backend : ReoBackend Recipient) (plain : backend.recipients ≡ none) where
  -- An upload that is no probe file, to where its path resolves.
  put_run :
      (user : ReoUser) (home : FilePath) (input : Input) (path place : FilePath) (name : String)
      (n : ℕ) (w : World)
      → user.role ≡ uploader home
      → file_name path ≡ some name
      → is_reolink_test_file name ≡ false
      → resolve (canonicalize w.disk) (user_view user) path ≡ ok place
      → put canonicalize encrypt backend user input path n w
        ≡ wrap_err store_error_to_storage (store_stream place n input) w
  unfolding put require capability_allowed put_named resolved put_resolved pure ◌>>=◌
  put_run user home input path place name n w role named normal found =
      let with_role : Role → ReoUser = λ r. record user { role = r } in
      let found' =
        subst (λ (u : ReoUser). resolve (canonicalize w.disk) (user_view u) path ≡ ok place)
          (ap with_role role) found in
      rw (role, named, normal, found', plain) refl

  -- The file at `place`.
  abbrev There : FilePath → ℕ → List ℕ → Disk → Type 0
  There place i bytes d = (node_at place d.names ≡ some (file i)) × (d.bytes i ≡ bytes)

  abbrev opening : FilePath → ℕ → Act StorageError (Node × ℕ)
  opening place n = wrap_err missing_file (call (read_open_effect place)) >>= λ node.
      (if ltb 0 n then wrap_err of_io (call (seek_effect n)) else pure 0) >>= λ position.
      pure (node, position)

  -- A download of a viewer, from where its path resolves.
  get_run :
      (user : ReoUser) (scope : ScopeMap) (path place : FilePath) (n : ℕ) (w : World)
      → user.role ≡ viewing scope
      → resolve (canonicalize w.disk) (user_view user) path ≡ ok place
      → get canonicalize encrypt user path n w ≡ opening place n w
  unfolding get require capability_allowed resolved pure ◌>>=◌
  get_run user scope path place n w role found =
      let with_role : Role → ReoUser = λ r. record user { role = r } in
      let found' =
        subst (λ (u : ReoUser). resolve (canonicalize w.disk) (user_view u) path ≡ ok place)
          (ap with_role role) found in
      rw (role, found') refl

  module _ (place : FilePath) (i : ℕ) (bytes : List ℕ) where
    abbrev K : Disk → Type 0
    K = There place i bytes

    alone : (t : Turn) → Alone ⊥ t → (d : Disk) → K d → K (t.meanwhile d)
    alone t r d k = subst K (sym (r.0 d)) k

    abbrev Found : {E : Type 0} → Result E Node → Disk → Type 0
    Found r d = (r ≡ ok (file i)) × K d

    opens : (d : Disk) → K d → Found (read_open_effect place d).0 (read_open_effect place d).1
    unfolding read_open_effect
    opens d k = rw (k.0, read_open_effect) (refl, k)

    seeks :
        (n : ℕ)
        → Ensures
            (Alone ⊥)
            K
            (if ltb 0 n then wrap_err of_io (call (seek_effect n)) else pure 0)
            (λ (r : Result StorageError ℕ) d. (r ≡ ok n) × K d)
    seeks n = go (ltb 0 n) refl
      where
        go :
            (b : Bool)
            → ltb 0 n ≡ b
            → Ensures
                (Alone ⊥)
                K
                (if b then wrap_err of_io (call (seek_effect n)) else pure 0)
                (λ (r : Result StorageError ℕ) d. (r ≡ ok n) × K d)
        go true e =
            Ensures-wrap_err _
              (Ensures-call (λ r d. (r ≡ ok n) × K d) (seek_effect n) alone (λ d k. (refl, k))
                (λ t r q d k. absurd (r.1 q)))
              of_io (λ a d k. (ground arith, k.1)) (λ q d k. absurd (cc (k.0)))
        go false e = Ensures-pure 0 (λ d k. (ground arith, k))

    opening-Found :
        (n : ℕ) → Ensures (Alone ⊥) K (opening place n) (λ r d. (r ≡ ok (file i, n)) × K d)
    opening-Found n =
        Ensures-bind _ _
          (Ensures-wrap_err _
            (Ensures-call Found (read_open_effect place) alone opens (λ t r e d k. absurd (r.1 e)))
            missing_file {Q = Found} (λ a d k. (ground arith, k.1)) (λ e d k. absurd (cc (k.0))))
          (λ node.
            Ensures-given _ (node ≡ file i) (λ d k. ground arith)
              λ e.
                Ensures-bind _ _ (Ensures-weaken _ (λ d k. k.1) (seeks n))
                  (λ position.
                    Ensures-given _ (position ≡ n) (λ d k. ground arith)
                      λ q. Ensures-pure (node, position) (λ d k. (rw (e, q) refl, k.1)))
                  (λ e d k. absurd (cc (k.0))))
          (λ e d k. absurd (cc (k.0)))

  module _ (camera viewer : ReoUser) (home : FilePath) (scope : ScopeMap)
      (path place path' : FilePath) (name place_name : String) (before : List ℕ) (input : Input)
      (n : ℕ) (w : World) where
    -- Nobody else touches the disk and no call fails, uploads are stored plain, and the stream does not
    -- break off. A camera uploads to a path that is no probe file's and resolves to a place that is
    -- ready for what follows `before`, from the end of that on. Then the upload returns the number of
    -- its bytes; and a viewer's download, from any offset, of a path that resolves to the same place
    -- opens a file that holds `before` followed by all bytes sent, and reads it from that offset on.
    pub get-put :
        camera.role ≡ uploader home
        → viewer.role ≡ viewing scope
        → file_name path ≡ some name
        → is_reolink_test_file name ≡ false
        → resolve (canonicalize w.disk) (user_view camera) path ≡ ok place
        → file_name place ≡ some place_name
        → Ready ⊥ place
            (staging_path place)
            (staging_path-ne place)
            before
            (length before)
            input
            w.disk
        → All (Alone ⊥) w.turns
        → input.breaks ≡ false
        → resolve
            (canonicalize
              (put canonicalize encrypt backend camera input path (length before) w).1.disk)
            (user_view viewer)
            path'
          ≡ ok place
        → let (answer, w') = put canonicalize encrypt backend camera input path (length before) w in
          (answer ≡ ok (total_length input.chunks))
          × ((i : ℕ) × ((get canonicalize encrypt viewer path' n w').0 ≡ ok (file i, n))
              × ((get canonicalize encrypt viewer path' n w').1.disk.bytes i
                  ≡ before ++ joined input.chunks))
    get-put role view named normal found last ready r whole found' =
        subst Result_of
          (sym
            (put_run camera home input path place name (length before) w role named normal found))
          (unfold wrap_err in stored) found'
      where
        Result_of : Result StorageError ℕ × World → Type 0
        Result_of (answer, w') =
            resolve (canonicalize w'.disk) (user_view viewer) path' ≡ ok place
            → (answer ≡ ok (total_length input.chunks))
              × ((i : ℕ) × ((get canonicalize encrypt viewer path' n w').0 ≡ ok (file i, n))
                  × ((get canonicalize encrypt viewer path' n w').1.disk.bytes i
                      ≡ before ++ joined input.chunks))

        stored : Result_of (
          map_err store_error_to_storage (store_stream place (length before) input w).0,
          (store_stream place (length before) input w).1,
        )
        stored seen =
            let (m, answered, published) =
              store_stream_publishes place place_name before input w last r ready whole in
            let turns =
              ((store_stream_step ⊥ place before (length before) input (named_length place last)).at
                w r ready).0 in
            let run =
              get_run viewer scope path' place n (store_stream place (length before) input w).1 view
                seen in
            let opened =
              (opening-Found place published.inode (before ++ joined input.chunks) n).at
                (store_stream place (length before) input w).1 turns
                (published.there, published.content) in
            (
              ap (map_err store_error_to_storage) answered ∙ ap ok published.counted,
              (
                published.inode,
                ap (λ (x : Result StorageError (Node × ℕ) × World). x.0) run ∙ opened.1.0,
                ap (λ (x : Result StorageError (Node × ℕ) × World). x.1.disk.bytes published.inode)
                      run
                    ∙ opened.1.1.1,
              ),
            )
