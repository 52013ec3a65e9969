-- ===== src/Tls/Examples.antt =====
-- Tests of src/tls.rs: `/etc` with a key that everybody may read.
use native.Mathlib.Decide.{ℕ_discrete}
use text.Mathlib.TextEquality.{eq_iff}
use ftp_reolink.Base.{
  String, ℕ, ◌≡◌, ◌≢◌, refl, inl, inr, true, false, none, some, [], ◌∷◌, ok, arith, string_dec,
}
use ftp_reolink.Base.Text.{as_bytes}
use ftp_reolink.Path.{FilePath, root_dir, normal, path_dec, component_dec}
use ftp_reolink.Disk.{
  Disk, file, node_at, default_mode, open_effect, open_mode_effect, write_effect,
}
use ftp_reolink.Disk.Act.{World, at_turn, take_turn, ◌>>=◌}
use ftp_reolink.Disk.Still.{still}
use ftp_reolink.Tls.{private_mode, write_cert_files}
use ftp_reolink.Tls.Private.{Private, write_cert_files-Private}
use ftp_reolink.Tls.Written.{Names, mode_after, write_cert_files_lem}

abbrev cert_path : FilePath
cert_path = root_dir ∷ normal "cert.pem" ∷ []

abbrev key_path : FilePath
key_path = root_dir ∷ normal "key.pem" ∷ []

abbrev empty : Disk
empty = record { names = []; bytes = λ i. []; modes = λ i. default_mode; next = 0 }

-- An older key is there, which all may read.
abbrev exposed : Disk
exposed = record {
  names = (key_path, file 0) ∷ [];
  bytes = λ i. [];
  modes = λ i. default_mode;
  next = 1;
}

-- The third call fails.
abbrev shaky : World
shaky = record {
  disk = empty;
  turns =
      record { meanwhile = λ d. d; fault = false }
      ∷ record { meanwhile = λ d. d; fault = false }
      ∷ record { meanwhile = λ d. d; fault = true }
      ∷ [];
}

names_differ : ◌≢◌ {A = String} "cert.pem" "key.pem"
names_differ = ground (arith, eq_iff "cert.pem" "key.pem")

paths_differ : cert_path ≢ key_path
paths_differ e = ground (arith, names_differ)

write_cert_files-Private_example :
    Private key_path
      (write_cert_files (0 ∷ []) (1 ∷ []) "pem" "key" cert_path key_path shaky).1.disk
unfolding node_at
write_cert_files-Private_example =
    write_cert_files-Private (0 ∷ []) (1 ∷ []) "pem" "key" cert_path key_path shaky paths_differ
      ((λ d k. k), ((λ d k. k), ((λ d k. k), tt))) (inl refl)

new_key_is_private :
    (write_cert_files [] [] "c" "k" cert_path key_path (still empty)).1.disk.modes 1 ≡ private_mode
unfolding write_cert_files take_turn at_turn open_effect open_mode_effect write_effect node_at
    path_dec component_dec string_dec ℕ_discrete ◌>>=◌
new_key_is_private = refl

cert_free : node_at cert_path exposed.names ≡ none
unfolding node_at path_dec component_dec string_dec
cert_free = refl

key_there : node_at key_path exposed.names ≡ some (file 0)
unfolding node_at path_dec component_dec string_dec
key_there = refl

not_both :
    (i : ℕ)
    → node_at cert_path exposed.names ≡ some (file i)
    → node_at key_path exposed.names ≢ some (file i)
not_both i e = absurd (cc (cert_free, e))

-- The key that all may read stays so.
write_cert_files_lem_example :
    (d' : Disk) × (write_cert_files (0 ∷ []) (1 ∷ []) "pem" "key" cert_path key_path (still exposed)
      ≡ (ok tt, still d'))
    × Names cert_path
        (as_bytes "pem")
        (mode_after default_mode (node_at cert_path exposed.names) exposed.modes)
        d'
    × Names key_path
        (as_bytes "key")
        (mode_after private_mode (node_at key_path exposed.names) exposed.modes)
        d'
write_cert_files_lem_example =
    write_cert_files_lem (0 ∷ []) (1 ∷ []) "pem" "key" cert_path key_path exposed paths_differ
      not_both (inl cert_free) (inr (0, key_there, omega arith))
