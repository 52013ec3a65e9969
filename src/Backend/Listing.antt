-- ===== src/Backend/Listing.antt =====
-- About `list` of src/backend.rs: what a listing shows.
use mathlib.Core.Path.{subst}
use ftp_reolink.Base.{
  ℕ, String, ◌≡◌, refl, Bool, true, false, Option, none, some, List, [], ◌∷◌, Result, ok, err, All,
  arith,
}
use ftp_reolink.Path.{FilePath, join_name}
use ftp_reolink.Auth.{ReoUser}
use ftp_reolink.Disk.{Disk, IoError, FileMetadata}
use ftp_reolink.Disk.Act.{Turn, World, Act, pure, ◌>>=◌}
use ftp_reolink.Disk.Triple.{Ensures, Ensures-bind, Ensures-pure}
use ftp_reolink.Backend.{
  Op, user_view, StorageError, missing_directory, Fileinfo, hidden, synthesized,
}
use ftp_reolink.Backend.Handlers.{add_entry, listed_before, collect, list_place, list}
use ftp_reolink.Backend.Looking.{
  Quiet, Quiet-wrap, Quiet-attempt, Quiet-metadata, Quiet-read_dir, Quiet-step, Quiet-require,
  Quiet-resolved,
}

-- Nothing is asked of the others, and nothing is known of the disk.
abbrev AnyTurn : Turn → Type 0
AnyTurn t = Unit

abbrev AnyDisk : Disk → Type 0
AnyDisk d = Unit

abbrev Visible : List Fileinfo → Type 0
Visible = All (λ info. hidden info.path ≡ false)

abbrev Shown : Result StorageError (List Fileinfo) → Disk → Type 0
Shown (ok infos) d = Visible infos
Shown (err e) d = Unit

abbrev Shows : Act StorageError (List Fileinfo) → Type 0
Shows m = Ensures AnyTurn AnyDisk m Shown

after :
    {A : Type 0} (m : Act StorageError A) (g : A → Act StorageError (List Fileinfo))
    → Quiet AnyTurn AnyDisk (λ t r d k. tt) m
    → ((a : A) → Shows (g a))
    → Shows (m >>= g)
after m g hm hg = Ensures-bind m g hm hg (λ e d k. tt)

add_entry-Visible :
    (name : String) (answer : Result IoError FileMetadata) (infos : List Fileinfo)
    → hidden name ≡ false
    → Visible infos
    → Visible (add_entry name answer infos)
add_entry-Visible name (ok m) infos h v = (h, v)
add_entry-Visible name (err e) infos h v = v

listed_before-Shows :
    (b : Bool) (p : FilePath) (name : String) (rest : Act StorageError (List Fileinfo))
    → hidden name ≡ b
    → Shows rest
    → Shows (listed_before b p name rest)
listed_before-Shows true p name rest e h = h
listed_before-Shows false p name rest e h =
    after _ _
      (Quiet-attempt AnyTurn AnyDisk (λ t r d k. tt) _
        (Quiet-metadata AnyTurn AnyDisk (λ t r d k. tt) (join_name p name)))
      λ answer.
        Ensures-bind rest _ h
          (λ infos. Ensures-pure _ (λ d v. add_entry-Visible name answer infos e v)) (λ x d k. tt)

collect-Shows : (p : FilePath) (names : List String) → Shows (collect p names)
unfolding collect
collect-Shows p [] =
    after _ _ (Quiet-step AnyTurn AnyDisk (λ t r d k. tt)) λ u. Ensures-pure [] (λ d k. tt)
collect-Shows p (name ∷ names) =
    after _ _ (Quiet-step AnyTurn AnyDisk (λ t r d k. tt))
      λ u. listed_before-Shows (hidden name) p name (collect p names) refl (collect-Shows p names)

ok_injective :
    {xs ys : List Fileinfo}
    → ◌≡◌ {A = Result StorageError (List Fileinfo)} (ok xs) (ok ys)
    → xs ≡ ys
ok_injective e = ground arith

module _ {Recipient : Type 0} (canonicalize : Disk → FilePath → Option FilePath)
    (encrypt : List Recipient → List (List ℕ) → Bool → List (List ℕ) × Bool) where
  list_place-Shows :
      (user : ReoUser) (p : FilePath) → Shows (list_place canonicalize encrypt user p)
  unfolding list_place
  list_place-Shows user p =
      after _ _
        (Quiet-resolved AnyTurn AnyDisk (λ t r d k. tt) canonicalize encrypt (user_view user) p)
        λ place.
          after _ _
            (Quiet-wrap AnyTurn AnyDisk (λ t r d k. tt) _ missing_directory
              (Quiet-read_dir AnyTurn AnyDisk (λ t r d k. tt) place))
            λ names. collect-Shows place names

  list-Shows :
      (user : ReoUser) (p : FilePath)
      → synthesized user.role p ≡ none
      → Shows (list canonicalize encrypt user p)
  unfolding list
  list-Shows user p h =
      after _ _ (Quiet-require AnyTurn AnyDisk (λ t r d k. tt) user.role Op.list)
        λ u. go (synthesized user.role p) h
    where
      go :
          (o : Option (List Fileinfo))
          → o ≡ none
          → Shows (elim o [
            | some entries ↦ pure entries
            | none ↦ list_place canonicalize encrypt user p
          ])
      go none e = list_place-Shows user p
      go (some entries) e = cc

  any_turns : (ts : List Turn) → All AnyTurn ts
  any_turns [] = tt
  any_turns (t ∷ ts) = (tt, any_turns ts)

  -- A listing of a directory never shows a staging file or a quarantine directory, whoever asks,
  -- whatever the other sessions do meanwhile and whatever calls fail.
  pub list_hides :
      (user : ReoUser) (p : FilePath) (w : World) (infos : List Fileinfo)
      → synthesized user.role p ≡ none
      → (list canonicalize encrypt user p w).0 ≡ ok infos
      → All (λ info. hidden info.path ≡ false) infos
  list_hides user p w infos h e = shown _ ((list-Shows user p h).at w (any_turns w.turns) tt).1 e
    where
      shown :
          (r : Result StorageError (List Fileinfo))
          → Shown r (list canonicalize encrypt user p w).1.disk
          → r ≡ ok infos
          → Visible infos
      shown (ok xs) v q = subst Visible (ok_injective q) v
      shown (err x) v q = cc
