-- ===== src/Backend/Sealing.antt =====
-- About `put` of `ReoBackend` in src/backend.rs, with recipients: the name of the plain file.
use ftp_reolink.Base.{
  ℕ, String, ◌≡◌, Bool, true, false, Option, none, some, List, All, ◌==◌, nat_eq, if◌then◌else◌,
}
use ftp_reolink.Path.{FilePath, file_name}
use ftp_reolink.Disk.{Disk, node_at}
use ftp_reolink.Disk.Act.{World, raise, wrap_err}
use ftp_reolink.Disk.Triple.{Ensures-raise, Ensures-wrap_err}
use ftp_reolink.Store.{Input, age_suffix, store_encrypted}
use ftp_reolink.Store.Plain.{Spares, Avoids, store_encrypted-Avoids}
use ftp_reolink.Backend.{permission_denied, store_error_to_storage}
use ftp_reolink.Backend.Handlers.{put_resolved}

-- With recipients set, an upload to a place that ends in a name, and where there is nothing, never
-- puts anything at that place itself, neither a file nor a directory, at no offset, whatever the
-- encryption writes, whatever calls fail, and whatever the other sessions do meanwhile as long as
-- they put nothing there either.
pub put_resolved_avoids :
    {Recipient : Type 0} (canonicalize : Disk → FilePath → Option FilePath)
    (encrypt : List Recipient → List (List ℕ) → Bool → List (List ℕ) × Bool)
    (recipients : List Recipient) (input : Input) (start : ℕ) (place : FilePath) (name : String)
    (w : World)
    → (named : file_name place ≡ some name) → All (Spares place name named) w.turns
    → node_at place w.disk.names ≡ none
    → node_at place
        (put_resolved canonicalize encrypt
          (record { recipients = some recipients })
          input
          start
          place
          w).1.disk.names
      ≡ none
unfolding put_resolved
put_resolved_avoids canonicalize encrypt recipients input start place name w named spared absent =
    ((step (start == 0)).at w spared absent).1
  where
    step :
        (t : Bool)
        → Avoids place name named (
            if t
            then wrap_err store_error_to_storage
                (store_encrypted (encrypt recipients) (age_suffix place) input)
            else raise permission_denied)
    step false = Ensures-raise permission_denied (λ d k. k)
    step true =
        Ensures-wrap_err _ (store_encrypted-Avoids place name named (encrypt recipients) input)
          store_error_to_storage (λ a d k. k) (λ e d k. k)
