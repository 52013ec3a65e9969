-- ===== src/Main/Examples.antt =====
-- Unit tests of src/main.rs, and the theorems at small disks.
use text.Mathlib.TextEquality.{eq_iff}
use mathlib.Core.Option
use native.Mathlib.Decide.{ℕ_discrete}
use mathlib.Core.Logic.{◌↔◌}
use mathlib.Core.Path.{subst}
use ftp_reolink.Base.{
  ℕ, ◌*◌, ◌≤◌, ◌≡◌, ◌≢◌, refl, ◌∙◌, String, ◌<>◌, Bool, true, false, Option, none, some, List, [],
  ◌∷◌, All, ok, arith, string_dec, sym,
}
use ftp_reolink.Base.Text.{
  split, cons_head, trim_start, strip_suffix, lines, starts_with, trim_end_matches, is_whitespace,
}
use ftp_reolink.Path.{
  FilePath, root_dir, normal, path_dec, component_dec, file_name, drop_last, join, path_of, inner,
  first,
}
use ftp_reolink.Config.Sample.{any_key, sample}
use ftp_reolink.Disk.{Disk, file, node_at, update}
use ftp_reolink.Disk.Act.{World}
use ftp_reolink.Disk.Keeping.{Kept}
use ftp_reolink.Store.Atomic.{Alone}
use ftp_reolink.Retention.{Entries, nil, file as clip, folder, is_quarantine}
use ftp_reolink.Retention.Spared.{spared}
use ftp_reolink.Cli.{render_camera_entry}
use ftp_reolink.Main.{
  retention_secs, read_password, config_path, find_key_line, stem_of, out_path, cleanup, add_camera,
  decrypt,
}
use ftp_reolink.Main.Retaining.{intended, retention_secs_iff, cleanup_spares}
use ftp_reolink.Main.Adding.{Outcome, add_camera_appends}
use ftp_reolink.Main.Decrypting.{Writes, decrypt_keeps}
use ftp_reolink.Append.{staging_path}
use ftp_reolink.Path.{push_text, parent}
use ftp_reolink.Disk.{
  dir, make_dirs, erase, exists_effect, remove_effect, create_dirs_effect, open_effect,
  write_effect, link_effect,
}
use ftp_reolink.Disk.Act.{take_turn, at_turn, ignore, ◌>>=◌}
use ftp_reolink.Disk.Still.{still}
use ftp_reolink.Store.{Input, store_encrypted, age_suffix, total_length}
use ftp_reolink.Store.Sealed.{Vacant}
use ftp_reolink.Main.{decrypt_file}
use ftp_reolink.Main.Decrypted.{AllFilled, Clear, Ended, decrypt_file_lem}
use ftp_reolink.Main.RoundTrip.{ReadsBack, Restored, decrypt_file-store_encrypted}

-- Two hundred thousand milliards of days come to less than a day.
wraps_around : retention_secs 213503982334602 ≡ 61184
unfolding retention_secs
wraps_around = refl

retention_secs_iff_example : (retention_secs 30 ≡ 30 * 86400) ↔ (30 ≤ 213503982334601)
retention_secs_iff_example = retention_secs_iff 30

reads_a_line : read_password none (ok "secret\r\n") ≡ ok "secret"
unfolding read_password trim_end_matches ℕ_discrete
reads_a_line = refl

finds_the_key :
    find_key_line (lines "# created\r\n AGE-SECRET-KEY-1X\r\n") ≡ some " AGE-SECRET-KEY-1X"
unfolding find_key_line lines split cons_head strip_suffix starts_with trim_start is_whitespace
    string_dec ℕ_discrete
finds_the_key = refl

abbrev footage : Entries
footage = folder "cam" (clip "new.mp4" (some 99) nil) nil

cleanup_spares_example :
    spared
      (intended sample 100)
      sample.archive.root
      (is_quarantine sample.archive.root)
      (cleanup any_key (ok sample) false 100 footage (false ∷ true ∷ [])).0
    ≡ spared (intended sample 100) sample.archive.root (is_quarantine sample.archive.root) footage
cleanup_spares_example =
    cleanup_spares any_key sample false 100 footage (false ∷ true ∷ []) (omega arith)

abbrev toml : FilePath
toml = root_dir ∷ normal "c.toml" ∷ []

abbrev disk : Disk
disk = record {
  names = (toml, file 0) ∷ (root_dir ∷ normal "x.age" ∷ [], file 1) ∷ [];
  bytes = update (update (λ i. []) 0 (1 ∷ 2 ∷ [])) 1 (9 ∷ 5 ∷ []);
  modes = λ i. 438;
  next = 2;
}

-- The third call fails.
abbrev shaky : World
shaky = record {
  disk = disk;
  turns =
      record { meanwhile = λ d. d; fault = false }
      ∷ record { meanwhile = λ d. d; fault = false }
      ∷ record { meanwhile = λ d. d; fault = true }
      ∷ [];
}

shaky-Alone : All (Alone Unit) shaky.turns
shaky-Alone = ((λ d. refl, λ e. tt), ((λ d. refl, λ e. tt), ((λ d. refl, λ e. tt), tt)))

-- A hash that shows the salt and the password.
abbrev mixed : String → String → Option String
mixed plain salt = some (salt <> plain)

add_camera_appends_example :
    Outcome mixed
      (config_path (some toml))
      (read_password (some "pw") (ok ""))
      "s"
      (λ hash. render_camera_entry "gate" none hash true)
      (3 ∷ [])
      shaky.disk
      (add_camera mixed (some toml) (some "pw") (ok "") "s" "gate" none true (3 ∷ []) shaky).0
      (add_camera mixed (some toml) (some "pw") (ok "") "s" "gate" none true (3 ∷ []) shaky).1.disk
add_camera_appends_example =
    add_camera_appends mixed (some toml) (some "pw") (ok "") "s" "gate" none true (3 ∷ []) shaky
      shaky-Alone

abbrev sealed : FilePath
sealed = root_dir ∷ normal "x.age" ∷ []

abbrev plain : FilePath
plain = root_dir ∷ normal "x" ∷ []

-- The only scratch path is that of the plain text.
abbrev Plain : FilePath → Type 0
Plain q = q ≡ plain

sealed_apart : Plain sealed → ⊥
sealed_apart e = ground (arith, eq_iff "x.age" "x", e)

sealed_stem : stem_of sealed ≡ some "x"
unfolding file_name strip_suffix string_dec
sealed_stem = refl

plain_path : out_path none sealed "x" ≡ plain
unfolding drop_last join path_of split cons_head inner first string_dec ℕ_discrete
plain_path = refl

sealed-Writes : Writes Plain none sealed
sealed-Writes stem e =
    subst (λ s. out_path none sealed s ≡ plain)
      (Option.some-injective "x" stem (sym sealed_stem ∙ e)) plain_path

sealed-Kept : Kept Plain sealed 1 (9 ∷ 5 ∷ []) disk
unfolding node_at path_dec component_dec string_dec ℕ_discrete
sealed-Kept = record {
  there = refl;
  content = refl;
  allocated = omega arith;
  apart = λ q z.
      subst (λ (x : FilePath). node_at x disk.names ≢ some (file 1)) (sym z) (λ e. ground arith);
}

-- An age that takes a header off.
abbrev open_header : String → List ℕ → Option (List (List ℕ) × Bool)
open_header id [] = none
open_header id (h ∷ bytes) = some (bytes ∷ [], false)

decrypt_keeps_example :
    Kept Plain sealed 1
      (9 ∷ 5 ∷ [])
      (decrypt open_header
        (λ bytes. some "AGE-SECRET-KEY-1X")
        some
        toml
        none
        (sealed ∷ [])
        shaky).1.disk
decrypt_keeps_example =
    decrypt_keeps open_header (λ bytes. some "AGE-SECRET-KEY-1X") some Plain sealed 1 (9 ∷ 5 ∷ [])
      toml none (sealed ∷ []) shaky sealed_apart (sealed-Writes, tt)
      (λ d k. k, (λ d k. k, (λ d k. k, tt))) sealed-Kept

plain_named : file_name plain ≡ some "x"
unfolding file_name
plain_named = refl

plain_Clear : Clear (out_path none sealed "x") 1 disk
unfolding node_at drop_last join path_of split cons_head inner first path_dec component_dec
    string_dec ℕ_discrete
plain_Clear = record {
  no_dir = λ e. ground (arith, e);
  apart = λ e. ground (arith, e);
  allocated = omega arith;
}

sealed_there : node_at sealed disk.names ≡ some (file 1)
unfolding node_at path_dec component_dec string_dec ℕ_discrete
sealed_there = refl

sealed_bytes : open_header "id" (disk.bytes 1) ≡ some ((5 ∷ []) ∷ [], false)
unfolding ℕ_discrete
sealed_bytes = refl

decrypt_file_lem_example :
    Ended sealed
      (out_path none sealed "x")
      (open_header "id" (disk.bytes 1))
      (decrypt_file open_header "id" none sealed (still disk)).0
      (decrypt_file open_header "id" none sealed (still disk)).1.disk
decrypt_file_lem_example =
    decrypt_file_lem open_header "id" none sealed "x" 1 disk sealed_stem sealed_there plain_Clear
      (subst AllFilled (sym sealed_bytes) (tt, tt))

-- The root directory is there, and nothing else.
abbrev bare : Disk
bare = record { names = (root_dir ∷ [], dir) ∷ []; bytes = λ i. []; modes = λ i. 438; next = 0 }

abbrev with_header : List (List ℕ) → Bool → List (List ℕ) × Bool
with_header chunks breaks = ((9 ∷ []) ∷ chunks, breaks)

abbrev upload : Input
upload = record { chunks = (5 ∷ 6 ∷ []) ∷ (7 ∷ []) ∷ []; breaks = false }

root_made : (q : FilePath) → some (root_dir ∷ []) ≡ some q → (make_dirs bare.names [] q).1 ≡ true
unfolding make_dirs node_at path_dec component_dec string_dec ℕ_discrete
root_made q e =
    subst (λ (x : FilePath). (make_dirs bare.names [] x).1 ≡ true)
      (Option.some-injective (root_dir ∷ []) q e) refl

plain-Vacant : Vacant (age_suffix plain) bare
unfolding age_suffix staging_path push_text node_at path_dec component_dec string_dec ℕ_discrete
    parent drop_last
plain-Vacant = record { free = refl; unstaged = refl; clear = root_made }

reads_back : ReadsBack open_header "id" with_header upload ((5 ∷ 6 ∷ 7 ∷ []) ∷ [])
reads_back = record { whole = refl; opens = refl; filled = (tt, tt); same = refl }

plain_unused :
    node_at
      (out_path none (age_suffix plain) "x")
      (store_encrypted with_header (age_suffix plain) upload (still bare)).1.disk.names
    ≡ none
unfolding store_encrypted take_turn at_turn exists_effect remove_effect create_dirs_effect
    open_effect write_effect link_effect node_at erase make_dirs age_suffix staging_path push_text
    path_dec component_dec string_dec ℕ_discrete ignore ◌>>=◌ parent drop_last join path_of split
    cons_head inner first
plain_unused = refl

decrypt_file-store_encrypted_example :
    ((store_encrypted with_header (age_suffix plain) upload (still bare)).0
      ≡ ok (total_length upload.chunks))
    × Restored open_header "id" with_header upload
        ((5 ∷ 6 ∷ 7 ∷ []) ∷ [])
        (out_path none (age_suffix plain) "x")
        (decrypt_file open_header "id" none
          (age_suffix plain)
          (store_encrypted with_header (age_suffix plain) upload (still bare)).1)
decrypt_file-store_encrypted_example =
    decrypt_file-store_encrypted open_header "id" with_header upload ((5 ∷ 6 ∷ 7 ∷ []) ∷ []) plain
      "x" none bare plain_named plain-Vacant reads_back plain_unused
