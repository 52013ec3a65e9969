-- ===== src/Backend/Sample.antt =====
-- A disk with one finished file, for the tests: `/srv` with a clip, a staged upload and a quarantine
-- directory.
use mathlib.Core.Path.{subst}
use Prim.Native.String.{count}
use text.Mathlib.TextLemmas.{length-append}
use native.Mathlib.Decide.{ℕ_discrete}
use ftp_reolink.Base.{
  ◌≡◌, ◌≢◌, refl, sym, ap, ◌∙◌, String, false, some, [], ◌∷◌, ◌<>◌, inl, inr, arith, string_dec,
}
use ftp_reolink.Base.Text.{codes_equal, starts_with}
use ftp_reolink.Path.{
  FilePath, root_dir, normal, path_eq, path_dec, component_dec, file_name, join_name,
}
use ftp_reolink.Path.Laws.{file_name-push_text, file_name-append}
use ftp_reolink.Append.{staging_path, is_reolink_test_file, quarantine_dir}
use ftp_reolink.Disk.{Disk, file, dir, node_at, update}
use ftp_reolink.Disk.Act.{World}
use ftp_reolink.Disk.Keeping.{Kept}
use ftp_reolink.Backend.Requests.{Scratch}

abbrev pub home : FilePath
home = root_dir ∷ normal "srv" ∷ []

abbrev pub clip : FilePath
clip = root_dir ∷ normal "srv" ∷ normal "old.mp4" ∷ []

-- `/srv` with one finished file, one staged file and a quarantine directory.
abbrev pub archive : Disk
archive = record {
  names =
      (home, dir)
      ∷ (clip, file 0)
      ∷ (join_name home "new.mp4.reoftpd-partial", file 1)
      ∷ (join_name home ".quarantine", dir)
      ∷ [];
  bytes = update (λ i. []) 0 (1 ∷ 2 ∷ []);
  modes = λ i. 438;
  next = 2;
}

abbrev pub session : World
session = record { disk = archive; turns = record { meanwhile = λ d. d; fault = false } ∷ [] }

last_name : file_name clip ≡ some "old.mp4"
unfolding file_name
last_name = refl

-- A name that ends in the staging suffix is longer.
not_staged : (s : String) → s <> ".reoftpd-partial" ≢ "old.mp4"
not_staged s e = omega (arith, length-append s ".reoftpd-partial", ap count e)

not_probe : is_reolink_test_file "old.mp4" ≡ false
unfolding is_reolink_test_file codes_equal starts_with ℕ_discrete
not_probe = refl

some_injective : {a b : String} → some a ≡ some b → a ≡ b
some_injective e = ground arith

pub clip_solid : Scratch clip → ⊥
unfolding staging_path
clip_solid (inl (p, e)) =
    let (s, named) = file_name-push_text p ".reoftpd-partial" in
    not_staged s (some_injective (sym named ∙ (ap file_name (sym e) ∙ last_name)))
clip_solid (inr (h, name, e, probe)) =
    let named = file_name-append (join_name h quarantine_dir) name in
    let same : name ≡ "old.mp4" = some_injective (sym named ∙ (ap file_name (sym e) ∙ last_name)) in
    cc (sym (ap is_reolink_test_file same) ∙ probe, not_probe)

pub only_clip : (q : FilePath) → node_at q archive.names ≡ some (file 0) → clip ≡ q
unfolding node_at
only_clip q e = ground arith

pub clip-Kept : Kept Scratch clip 0 (1 ∷ 2 ∷ []) archive
unfolding node_at path_dec component_dec string_dec ℕ_discrete
clip-Kept = record {
  there = refl;
  content = refl;
  allocated = omega arith;
  apart = λ q z e. clip_solid (subst Scratch (sym (only_clip q e)) z);
}
