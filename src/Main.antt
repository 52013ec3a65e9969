-- ===== src/Main.antt =====
-- src/main.rs: the commands, each as an action on the disk that answers with what it prints to the
-- standard output. What it prints to the standard error is left out. The configuration is what
-- reading and parsing its file gave; the environment and the line from the standard input are
-- arguments, and so is the salt of a password. `argon2` and `parse_identity` are crates', and
-- `from_utf8` is the standard library's.
pub mod Retaining
pub mod Appending
pub mod Adding
pub mod Decrypting
pub mod Dispatch
pub mod Decrypted
pub mod RoundTrip
mod Examples
use ftp_reolink.Base.{
  ℕ, ◌*◌, ◌%◌, ◌^◌, String, ◌<>◌, Bool, true, false, ◌||◌, Option, none, some, List, [], ◌∷◌, ◌==◌,
  nat_eq, string_eq, Result, ok, err, ok_or, map_err, if◌then◌else◌,
}
use ftp_reolink.Base.Text.{
  trim, trim_start, trim_end_matches, codes, starts_with, strip_suffix, lines, as_bytes,
}
use ftp_reolink.Path.{FilePath, join, file_name, drop_last, path_of}
use ftp_reolink.Config.{Config, ConfigError, load}
use ftp_reolink.Server.{Running, start}
use ftp_reolink.Retention.{Entries, Policy, SweepReport, sweep}
use ftp_reolink.Nftables.{render_nftables}
use ftp_reolink.Tls.{write_cert_files, private_mode}
use ftp_reolink.Disk.{open_mode_effect}
use ftp_reolink.Cli.{render_camera_entry, render_viewer_entry}
use ftp_reolink.Crypto.{CryptoError, decrypt_stream}
use ftp_reolink.Disk.{
  Node, IoError, failed, Effect, open_effect, append_open_effect, read_open_effect, read_effect,
  write_effect, remove_effect,
}
use ftp_reolink.Disk.Act.{Act, World, call, pure, raise, wrap_err, attempt, ignore, ◌>>=◌, ◌>>◌}
use ftp_reolink.Disk.Writing.{write_all}

pub data MainError : Type 0 where
  loading : ConfigError → MainError
  io : IoError → MainError
  hashing certificate no_key_line bad_identity sweeping : MainError
  not_age : FilePath → MainError
  undecrypted : FilePath → CryptoError → MainError

abbrev pub sys : {A : Type 0} → Effect A → Act MainError A
sys f = wrap_err io (call f)

-- `x?` of a result at hand
abbrev pub lift : {E A : Type 0} → (E → MainError) → Result E A → Act MainError A
lift f (ok a) = pure a
lift f (err e) = raise (f e)

-- `Option::ok_or(e)?`
abbrev pub lift_some : {A : Type 0} → MainError → Option A → Act MainError A
lift_some e (some a) = pure a
lift_some e none = raise e

abbrev pub is_newline : ℕ → Bool
is_newline c = c == b'\n' || c == b'\r'

-- The password of `REOFTPD_PASSWORD`, or else a line of the standard input.
unfoldable pub read_password : Option String → Result IoError String → Result IoError String
read_password (some pw) line = ok pw
read_password none (ok line) = ok (trim_end_matches is_newline line)
read_password none (err e) = err e

abbrev pub config_path : Option FilePath → FilePath
config_path none = path_of "/etc/reoftpd/reoftpd.toml"
config_path (some p) = p

-- Writes at the end of the configuration file, which must be there. `cuts` says how the system cuts
-- them.
unfoldable pub append_snippet : List ℕ → FilePath → String → Act MainError (Unit {0})
unfolding as_bytes write_all
append_snippet cuts config snippet = do
  f ← sys (append_open_effect config)
  wrap_err io (write_all f (as_bytes snippet) cuts)

-- Seconds are `u64`; an optimised build wraps around.
unfoldable pub retention_secs : ℕ → ℕ
retention_secs retention_days = (retention_days * 86400) % 2 ^ 64

-- `Duration::from_secs`, in nanoseconds
abbrev pub from_secs : ℕ → ℕ
from_secs n = n * 1000000000

abbrev pub cleanup_policy : Config → ℕ → Policy
cleanup_policy cfg now = record {
  retention = from_secs (retention_secs cfg.archive.retention_days);
  quarantine_ttl = from_secs 3600;
  staging_ttl = from_secs 3600;
  now = now;
}

abbrev pub swept : Entries × Result (Unit {0}) SweepReport → Entries × Result MainError SweepReport
swept (es, r) = (es, map_err (λ u. sweeping) r)

abbrev pub cleanup_loaded :
    Result ConfigError Config
    → Bool
    → ℕ
    → Entries
    → List Bool
    → Entries × Result MainError SweepReport
cleanup_loaded (err e) dry_run now es faults = (es, err (loading e))
cleanup_loaded (ok cfg) dry_run now es faults =
    swept (sweep (cleanup_policy cfg now) dry_run cfg.archive.root es faults)

module _ {Recipient : Type 0} (parse_recipient : String → Option Recipient) where
  unfoldable pub serve : Result ConfigError Config → World → Result MainError Running × World
  serve parsed w = elim (load parse_recipient parsed) [
    | err e ↦ (err (loading e), w)
    | ok cfg ↦ let (r, w') = start cfg w in (map_err io r, w')
  ]

  -- The archive of a configuration holds `es` below its root.
  unfoldable pub cleanup :
      Result ConfigError Config
      → Bool
      → ℕ
      → Entries
      → List Bool
      → Entries × Result MainError SweepReport
  cleanup parsed dry_run now es faults =
      cleanup_loaded (load parse_recipient parsed) dry_run now es faults

  unfoldable pub nftables : Result ConfigError Config → Result MainError String
  nftables parsed = elim (load parse_recipient parsed) [
    | err e ↦ err (loading e)
    | ok cfg ↦ ok (render_nftables cfg)
  ]

abbrev pub hash_failed : Unit {0} → MainError
hash_failed u = hashing

module _ (argon2 : String → String → Option String) where
  -- `hash_password` of src/hashing.rs
  unfoldable pub hash_password : String → String → Result (Unit {0}) String
  hash_password plain salt = ok_or (argon2 plain salt) tt

  unfoldable pub add_camera :
      Option FilePath
      → Option String
      → Result IoError String
      → String
      → String
      → Option String
      → Bool
      → List ℕ
      → Act MainError (Unit {0})
  unfolding append_snippet
  add_camera reoftpd_config env_password line salt name username require_tls cuts = do
    password ← lift io (read_password env_password line)
    hash ← lift hash_failed (hash_password password salt)
    append_snippet cuts (config_path reoftpd_config)
        (render_camera_entry name username hash require_tls)

  unfoldable pub add_viewer :
      Option FilePath
      → Option String
      → Result IoError String
      → String
      → String
      → String
      → List ℕ
      → Act MainError (Unit {0})
  unfolding append_snippet
  add_viewer reoftpd_config env_password line salt name scope cuts = do
    password ← lift io (read_password env_password line)
    hash ← lift hash_failed (hash_password password salt)
    append_snippet cuts (config_path reoftpd_config) (render_viewer_entry name hash scope)

  unfoldable pub print_hash : Option String → Result IoError String → String → Act MainError String
  print_hash env_password line salt = do
    password ← lift io (read_password env_password line)
    hash ← lift hash_failed (hash_password password salt)
    pure (hash <> "\n")

-- `rcgen` gives the certificate and the key for the host names.
unfoldable pub gencert :
    (List String → Option (String × String))
    → List String
    → FilePath
    → FilePath
    → List ℕ
    → List ℕ
    → Act MainError (Unit {0})
gencert rcgen hostnames cert key cuts key_cuts = do
  pems ← lift_some certificate (rcgen hostnames)
  wrap_err io (write_cert_files cuts key_cuts pems.0 pems.1 cert key)

-- The pair of keys is age's: the public one, and the secret.
unfoldable pub genkey : String × String → Option FilePath → List ℕ → Act MainError String
unfolding as_bytes write_all
genkey (public, secret) (some path) cuts = do
  f ← sys (open_mode_effect private_mode path)
  u ← wrap_err io (write_all f (as_bytes (secret <> "\n")) cuts)
  pure (public <> "\n")
genkey (public, secret) none cuts = pure (secret <> ("\n" <> (public <> "\n")))

-- The line of the key, among comments.
unfoldable pub find_key_line : List String → Option String
find_key_line [] = none
find_key_line (l ∷ ls) =
    let rest = find_key_line ls in
    if starts_with (codes (trim_start l)) (codes "AGE-SECRET-KEY-") then some l else rest

-- The name without `.age`.
abbrev pub stem_of : FilePath → Option String
stem_of input = elim (file_name input) [ none ↦ none | some n ↦ strip_suffix n ".age" ]

-- `Path::with_file_name`, on a path that ends in a name
abbrev pub with_file_name : FilePath → String → FilePath
with_file_name p s = join (drop_last p) (path_of s)

abbrev pub out_path : Option FilePath → FilePath → String → FilePath
out_path (some dir) input stem = join dir (path_of stem)
out_path none input stem = with_file_name input stem

-- A failed decryption takes its output with it.
abbrev pub settled : FilePath → FilePath → Result CryptoError ℕ → Act MainError (Unit {0})
settled input out (ok n) = pure tt
settled input out (err e) = do ignore (call (remove_effect out)); raise (undecrypted input e)

module _ {Identity : Type 0} (open_age : Identity → List ℕ → Option (List (List ℕ) × Bool)) where
  unfoldable pub decrypt_to : Identity → FilePath → FilePath → Act MainError (Unit {0})
  decrypt_to id input out = do
    rd ← sys (read_open_effect input)
    wr ← sys (open_effect false out)
    answer ← attempt (decrypt_stream open_age id rd wr)
    settled input out answer

  unfoldable pub decrypt_file : Identity → Option FilePath → FilePath → Act MainError (Unit {0})
  unfolding decrypt_to
  decrypt_file id output input = do
    stem ← lift_some (not_age input) (stem_of input)
    decrypt_to id input (out_path output input stem)

  -- The first error ends the loop.
  unfoldable pub decrypt_files :
      Identity → Option FilePath → List FilePath → Act MainError (Unit {0})
  unfolding decrypt_file
  decrypt_files id output [] = pure tt
  decrypt_files id output (input ∷ files) =
      decrypt_file id output input >> decrypt_files id output files

  unfoldable pub decrypt :
      (List ℕ → Option String)
      → (String → Option Identity)
      → FilePath
      → Option FilePath
      → List FilePath
      → Act MainError (Unit {0})
  unfolding decrypt_files find_key_line
  decrypt from_utf8 parse_identity identity output files = do
    rd ← sys (read_open_effect identity)
    content ← sys (read_effect rd)
    id_text ← lift_some (io failed) (from_utf8 content)
    key_line ← lift_some no_key_line (find_key_line (lines id_text))
    id ← lift_some bad_identity (parse_identity (trim key_line))
    decrypt_files id output files
