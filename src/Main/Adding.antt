-- ===== src/Main/Adding.antt =====
-- About `add-camera` and `add-viewer` of src/main.rs: what they do to the files.
use mathlib.Core.Path.{subst}
use ftp_reolink.Base.{
  ℕ, ◌≡◌, refl, sym, ◌∙◌, String, Bool, Option, none, some, List, [], Result, ok, err, All, ◌⊎◌,
  inl, inr, nat_eq,
}
use ftp_reolink.Base.Text.{as_bytes}
use ftp_reolink.Path.{FilePath}
use ftp_reolink.Disk.{
  Node, not_found, file, dir, Disk, IoError, failed, node_at, Effect, append_open_effect,
}
use ftp_reolink.Disk.Act.{Turn, World, Act, call, wrap_err, ◌>>=◌}
use ftp_reolink.Disk.Writing.{write_all}
use ftp_reolink.Disk.Triple.{
  Ensures, Ensures-given, Ensures-weaken, Ensures-strengthen, Ensures-pure, Ensures-raise,
  Ensures-call, Ensures-bind, Ensures-wrap_err,
}
use ftp_reolink.Store.Atomic.{Alone}
use ftp_reolink.Cli.{render_camera_entry, render_viewer_entry}
use ftp_reolink.Main.{
  MainError, io, sys, lift, read_password, config_path, append_snippet, hash_password, hash_failed,
  add_camera, add_viewer,
}
use ftp_reolink.Main.Appending.{extended, extended-nil, Begun, step_write_all}

module _ (d : Disk) where
  abbrev R : Turn → Type 0
  R = Alone Unit

  abbrev Same : Disk → Type 0
  Same d' = d' ≡ d

  -- The action ends with `G` of what it answers, or fails and leaves the disk as it was or with `B`.
  abbrev Post : {E A : Type 0} → (Disk → Type 0) → (A → Disk → Type 0) → Result E A → Disk → Type 0
  Post B G (ok a) d' = G a d'
  Post B G (err e) d' = Same d' ⊎ B d'

  abbrev Step :
      {E A : Type 0} → (Disk → Type 0) → (Disk → Type 0) → Act E A → (A → Disk → Type 0) → Type 0
  Step B K m G = Ensures R K m (Post B G)

  step_sys :
      {A : Type 0} (B K : Disk → Type 0) (f : Effect A) (G : A → Disk → Type 0)
      → ((d' : Disk) → K d' → Same d')
      → (K d → Post B G (f d).0 (f d).1)
      → Step B K (sys f) G
  step_sys B K f G same h =
      Ensures-wrap_err (call f)
        (Ensures-call (Post B G) f (λ t r d' k. subst K (sym (r.0 d')) k)
          (λ d' k. subst (λ x. K x → Post B G (f x).0 (f x).1) (sym (same d' k)) h k)
          (λ t r q d' k. inl (same d' k)))
        io (λ a d' k. k) (λ e d' k. k)

  abbrev Opened : FilePath → ℕ → Type 0
  Opened p i = node_at p d.names ≡ some (file i)

  answer : Option Node → Result IoError ℕ × Disk
  answer none = (err not_found, d)
  answer (some (file i)) = (ok i, d)
  answer (some dir) = (err failed, d)

  append_open_lem :
      (p : FilePath) (n : Option Node) → node_at p d.names ≡ n → append_open_effect p d ≡ answer n
  unfolding append_open_effect answer
  append_open_lem p none e = rw (e, append_open_effect) refl
  append_open_lem p (some (file i)) e = rw (e, append_open_effect) refl
  append_open_lem p (some dir) e = rw (e, append_open_effect) refl

  opens :
      (B : Disk → Type 0) (p : FilePath)
      → Post B (λ i d'. Same d' × Opened p i) (append_open_effect p d).0 (append_open_effect p d).1
  unfolding answer
  opens B p =
      subst (λ x. Post B (λ i d'. Same d' × Opened p i) x.0 x.1) (sym (append_open_lem p _ refl))
        (go _ refl)
    where
      go :
          (n : Option Node)
          → node_at p d.names ≡ n
          → Post B (λ i d'. Same d' × Opened p i) (answer n).0 (answer n).1
      go none e = inl refl
      go (some (file i)) e = (refl, e)
      go (some dir) e = inl refl

  abbrev Appended : FilePath → List ℕ → Disk → Type 0
  Appended p bytes d' = (i : ℕ) × Opened p i × (d' ≡ extended d i bytes)

  -- The writes have come to an end too early.
  abbrev Broken : FilePath → List ℕ → Disk → Type 0
  Broken p bytes d' = (i : ℕ) × Opened p i × Begun d i bytes d'

  step_append :
      (cuts : List ℕ) (p : FilePath) (snippet : String)
      → Step
          (Broken p (as_bytes snippet))
          Same
          (append_snippet cuts p snippet)
          (λ u. Appended p (as_bytes snippet))
  unfolding append_snippet
  step_append cuts p snippet =
      let bytes = as_bytes snippet in
      Ensures-bind (sys (append_open_effect p)) (λ f. wrap_err io (write_all f bytes cuts))
        (step_sys (Broken p bytes) Same (append_open_effect p) (λ i d'. Same d' × Opened p i)
          (λ d' k. k) (λ k. opens (Broken p bytes) p))
        (λ i.
          Ensures-given _ (Opened p i) (λ d' k. k.1)
            (λ there.
              Ensures-wrap_err (write_all i bytes cuts)
                (Ensures-weaken _ (λ d' k. k.0 ∙ sym (extended-nil d i))
                  (step_write_all d i [] bytes cuts bytes refl))
                io (λ a d' k. (i, there, k)) (λ e d' k. inr (i, there, k))))
        (λ e d' k. k)

  step_lift :
      {E A : Type 0} (B K : Disk → Type 0) (f : E → MainError) (r : Result E A)
      → ((d' : Disk) → K d' → Same d')
      → Step B K (lift f r) (λ a d'. K d' × (r ≡ ok a))
  step_lift B K f (ok a) same = Ensures-pure a (λ d' k. (k, refl))
  step_lift B K f (err e) same = Ensures-raise (f e) (λ d' k. inl (same d' k))

  module _ (argon2 : String → String → Option String) (p : FilePath) (pw : Result IoError String)
      (salt : String) (render : String → String) (cuts : List ℕ) where
    -- The disk is as `G` says of what is rendered for a hash of the password.
    abbrev Rendered : (List ℕ → Disk → Type 0) → Disk → Type 0
    Rendered G d' =
        (password : String) × (hash : String) × (pw ≡ ok password)
        × (hash_password argon2 password salt ≡ ok hash)
        × G (as_bytes (render hash)) d'

    -- The file at `p` has grown by the entry, and nothing else has changed.
    abbrev Added : Disk → Type 0
    Added = Rendered (Appended p)

    -- The file at `p` has grown by a beginning of the entry, and nothing else has changed.
    abbrev Spoilt : Disk → Type 0
    Spoilt = Rendered (Broken p)

    add : Act MainError (Unit {0})
    add = lift io pw >>= λ password.
        lift hash_failed (hash_password argon2 password salt) >>= λ hash.
        append_snippet cuts p (render hash)

    done :
        (password hash : String)
        → (pw ≡ ok password) × (hash_password argon2 password salt ≡ ok hash)
        → (r : Result MainError (Unit {0})) (d' : Disk)
        → Post (Broken p (as_bytes (render hash))) (λ u. Appended p (as_bytes (render hash))) r d'
        → Post Spoilt (λ u. Added) r d'
    done password hash known (ok u) d' k = (password, hash, known.0, known.1, k)
    done password hash known (err e) d' (inl k) = inl k
    done password hash known (err e) d' (inr k) = inr (password, hash, known.0, known.1, k)

    step_add : Step Spoilt Same add (λ u. Added)
    unfolding add
    step_add =
        Ensures-bind (lift io pw) _ (step_lift Spoilt Same io pw (λ d' k. k))
          (λ password.
            Ensures-bind (lift hash_failed (hash_password argon2 password salt)) _
              (step_lift Spoilt (λ d'. Same d' × (pw ≡ ok password)) hash_failed
                (hash_password argon2 password salt) (λ d' k. k.0))
              (λ hash.
                Ensures-given _
                  ((pw ≡ ok password) × (hash_password argon2 password salt ≡ ok hash))
                  (λ d' k. (k.0.1, k.1))
                  (λ known.
                    Ensures-strengthen _
                      (Ensures-weaken _ (λ d' k. k.0.0) (step_append cuts p (render hash)))
                      (done password hash known)))
              (λ e d' k. k))
          (λ e d' k. k)

-- What adding an account ends with.
abbrev pub Outcome :
    (argon2 : String → String → Option String)
    → FilePath
    → Result IoError String
    → String
    → (String → String)
    → List ℕ
    → Disk
    → Result MainError (Unit {0})
    → Disk
    → Type 0
Outcome argon2 p pw salt render cuts d (ok u) d' = Added d argon2 p pw salt render cuts d'
Outcome argon2 p pw salt render cuts d (err e) d' =
    (d' ≡ d) ⊎ Spoilt d argon2 p pw salt render cuts d'

added :
    (argon2 : String → String → Option String) (p : FilePath) (pw : Result IoError String)
    (salt : String) (render : String → String) (cuts : List ℕ) (w : World)
    → All (Alone Unit) w.turns
    → Outcome argon2 p pw salt render cuts w.disk
        (add w.disk argon2 p pw salt render cuts w).0
        (add w.disk argon2 p pw salt render cuts w).1.disk
added argon2 p pw salt render cuts w r =
    go _ _ ((step_add w.disk argon2 p pw salt render cuts).at w r refl).1
  where
    go :
        (x : Result MainError (Unit {0})) (d' : Disk)
        → Post w.disk
            (Spoilt w.disk argon2 p pw salt render cuts)
            (λ u. Added w.disk argon2 p pw salt render cuts)
            x
            d'
        → Outcome argon2 p pw salt render cuts w.disk x d'
    go (ok u) d' k = k
    go (err e) d' k = k

-- If nobody else touches the disk, then whatever calls fail and however the system cuts the writes:
-- either `add-camera` succeeds, the configuration file was there, and it has grown at its end by the
-- entry that is rendered for a hash of the password; or it fails, and the file has grown by nothing, or,
-- where a write failed, by a beginning of that entry. Nothing else on the disk has changed.
pub add_camera_appends :
    (argon2 : String → String → Option String) (reoftpd_config : Option FilePath)
    (env_password : Option String) (line : Result IoError String) (salt name : String)
    (username : Option String) (require_tls : Bool) (cuts : List ℕ) (w : World)
    → All (Alone Unit) w.turns
    → Outcome argon2
        (config_path reoftpd_config)
        (read_password env_password line)
        salt
        (λ hash. render_camera_entry name username hash require_tls)
        cuts
        w.disk
        (add_camera argon2 reoftpd_config env_password line salt name username require_tls cuts w).0
        (add_camera argon2 reoftpd_config env_password line salt name username require_tls cuts
          w).1.disk
unfolding add_camera add
add_camera_appends argon2 reoftpd_config env_password line salt name username require_tls cuts w r =
    added argon2 (config_path reoftpd_config) (read_password env_password line) salt
      (λ hash. render_camera_entry name username hash require_tls) cuts w r

-- The same for `add-viewer`, with the entry of a viewer.
pub add_viewer_appends :
    (argon2 : String → String → Option String) (reoftpd_config : Option FilePath)
    (env_password : Option String) (line : Result IoError String) (salt name scope : String)
    (cuts : List ℕ) (w : World)
    → All (Alone Unit) w.turns
    → Outcome argon2
        (config_path reoftpd_config)
        (read_password env_password line)
        salt
        (λ hash. render_viewer_entry name hash scope)
        cuts
        w.disk
        (add_viewer argon2 reoftpd_config env_password line salt name scope cuts w).0
        (add_viewer argon2 reoftpd_config env_password line salt name scope cuts w).1.disk
unfolding add_viewer add
add_viewer_appends argon2 reoftpd_config env_password line salt name scope cuts w r =
    added argon2 (config_path reoftpd_config) (read_password env_password line) salt
      (λ hash. render_viewer_entry name hash scope) cuts w r
