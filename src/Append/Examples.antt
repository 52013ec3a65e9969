-- ===== src/Append/Examples.antt =====
-- Unit tests of src/append.rs, and the theorem at concrete sizes.
use native.Mathlib.Decide.{ℕ_discrete}
use ftp_reolink.Base.{◌≡◌, refl, true, false, [], ◌∷◌}
use ftp_reolink.Base.Text.{codes_equal, starts_with}
use ftp_reolink.Path.{normal, root_dir, push_text}
use ftp_reolink.Append.{staging_path, is_reolink_test_file}

staging_path_appends_suffix :
    staging_path (root_dir ∷ normal "a" ∷ normal "clip.mp4" ∷ [])
    ≡ root_dir ∷ normal "a" ∷ normal "clip.mp4.reoftpd-partial" ∷ []
unfolding staging_path push_text
staging_path_appends_suffix = refl

recognises_probe : is_reolink_test_file "TestFTP123" ≡ true
unfolding is_reolink_test_file codes_equal starts_with ℕ_discrete
recognises_probe = refl

keeps_clip : is_reolink_test_file "testimony.mp4" ≡ false
unfolding is_reolink_test_file codes_equal starts_with ℕ_discrete
keeps_clip = refl
