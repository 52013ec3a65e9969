-- ===== src/Backend/Putting.antt =====
-- About the two ways of `put` in src/backend.rs to write: all files but what they write to.
use ftp_reolink.Base.{
  ℕ, String, Bool, true, false, Option, none, some, List, ◌==◌, nat_eq, if◌then◌else◌,
}
use ftp_reolink.Path.{FilePath, join_name}
use ftp_reolink.Append.{quarantine_dir, staging_path}
use ftp_reolink.Disk.{Disk}
use ftp_reolink.Disk.Act.{Act, raise, wrap_err}
use ftp_reolink.Disk.Keeping.{
  Sound, Sound-wrap, Sound-bind, Sound-raise, Sound-create_dirs, open_then,
}
use ftp_reolink.Store.{Input, age_suffix, store_stream, store_encrypted}
use ftp_reolink.Store.Keeping.{Keeps-copy}
use ftp_reolink.Store.Immutable.{store_stream-Keeps, store_encrypted-Keeps}
use ftp_reolink.Backend.{permission_denied, of_io, store_error_to_storage}
use ftp_reolink.Backend.Handlers

module _ (Scratch : FilePath → Type 0) (f : FilePath) (i : ℕ) (b : List ℕ)
    (solid : Scratch f → ⊥) where
  abbrev Keeps : {E A : Type 0} → Act E A → Type 0
  Keeps = Sound Scratch f i b solid

  pub quarantine-Keeps :
      (home : FilePath) (name : String) (input : Input)
      → Scratch (join_name (join_name home quarantine_dir) name)
      → Keeps (Handlers.quarantine home name input)
  unfolding Handlers.quarantine
  quarantine-Keeps home name input scratch =
      Sound-bind Scratch f i b solid _ _
        (Sound-wrap Scratch f i b solid _ of_io (Sound-create_dirs Scratch f i b solid _))
        λ u. open_then Scratch f i b solid _ scratch of_io false _ λ j apart.
          Sound-wrap Scratch f i b solid _ of_io
            (Keeps-copy Scratch f i b solid j input.chunks input.breaks 0 apart)

  module _ {Recipient : Type 0} (canonicalize : Disk → FilePath → Option FilePath)
      (encrypt : List Recipient → List (List ℕ) → Bool → List (List ℕ) × Bool)
      (backend : Handlers.ReoBackend Recipient) where
    pub put_resolved-Keeps :
        (input : Input) (start : ℕ) (place : FilePath)
        → Scratch (staging_path place)
        → Scratch (staging_path (age_suffix place))
        → Keeps (Handlers.put_resolved canonicalize encrypt backend input start place)
    unfolding Handlers.put_resolved
    put_resolved-Keeps input start place plain sealed = recipients backend.recipients
      where
        encrypted :
            (rs : List Recipient) (t : Bool)
            → Keeps (
                if t
                then wrap_err store_error_to_storage
                    (store_encrypted (encrypt rs) (age_suffix place) input)
                else raise permission_denied)
        encrypted rs false = Sound-raise Scratch f i b solid permission_denied
        encrypted rs true =
            Sound-wrap Scratch f i b solid _ store_error_to_storage (
              store_encrypted-Keeps Scratch f i b solid (age_suffix place) sealed (encrypt rs)
                input)

        recipients :
            (o : Option (List Recipient))
            → Keeps (elim o [
              | some rs ↦
                  if start == 0
                  then wrap_err store_error_to_storage
                      (store_encrypted (encrypt rs) (age_suffix place) input)
                  else raise permission_denied
              | none ↦ wrap_err store_error_to_storage (store_stream place start input)
            ])
        recipients (some rs) = encrypted rs (start == 0)
        recipients none =
            Sound-wrap Scratch f i b solid _ store_error_to_storage
              (store_stream-Keeps Scratch f i b solid place plain start input)
