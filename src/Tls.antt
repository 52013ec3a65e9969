-- ===== src/Tls.antt =====
-- src/tls.rs: `write_cert_files`. The certificate and the key come from rcgen.
pub mod Private
pub mod Written
mod Examples
use ftp_reolink.Base.{String, ℕ, false, List}
use ftp_reolink.Base.Text.{as_bytes}
use ftp_reolink.Path.{FilePath}
use ftp_reolink.Disk.{IoError, open_effect, open_mode_effect}
use ftp_reolink.Disk.Act.{Act, call, ◌>>=◌}
use ftp_reolink.Disk.Writing.{write_all}

-- `std::fs::write`: the file is made, or emptied, and written. `cuts` says how the system cuts the
-- writes.
unfoldable pub write_file : List ℕ → FilePath → List ℕ → Act IoError (Unit {0})
unfolding write_all
write_file cuts p bytes = do f ← call (open_effect false p); write_all f bytes cuts

-- `0o600`
abbrev pub private_mode : ℕ
private_mode = 384

-- The same by hand for the key.
unfoldable pub write_private : List ℕ → FilePath → List ℕ → Act IoError (Unit {0})
unfolding write_all
write_private cuts p bytes = do f ← call (open_mode_effect private_mode p); write_all f bytes cuts

unfoldable pub write_cert_files :
    List ℕ → List ℕ → String → String → FilePath → FilePath → Act IoError (Unit {0})
unfolding write_file write_private as_bytes
write_cert_files cuts key_cuts cert_pem key_pem cert_path key_path = do
  u ← write_file cuts cert_path (as_bytes cert_pem)
  write_private key_cuts key_path (as_bytes key_pem)
