-- ===== src/Append.antt =====
-- src/append.rs: offsets of uploads, staging names and Reolink's probe files.
pub mod Laws
mod Examples
use Prim.Native.Nat.{compare, Ordering}
use ftp_reolink.Base.{ℕ, String, Bool, ◌||◌}
use ftp_reolink.Base.Text.{to_ascii_lowercase, codes, codes_equal, starts_with}
use ftp_reolink.Path.{FilePath, push_text}

abbrev pub staging_suffix : String
staging_suffix = ".reoftpd-partial"

abbrev pub quarantine_dir : String
quarantine_dir = ".quarantine"

pub data OffsetVerdict : Type 0 where
  proceed overlap gap : OffsetVerdict

unfoldable pub classify_offset : ℕ → ℕ → OffsetVerdict
classify_offset start_pos existing_size = elim (compare start_pos existing_size) [
  | Ordering.eq ↦ proceed
  | Ordering.lt ↦ overlap
  | Ordering.gt ↦ gap
]

unfoldable pub staging_path : FilePath → FilePath
unfolding push_text
staging_path final_path = push_text final_path staging_suffix

unfoldable pub is_reolink_test_file : String → Bool
unfolding codes_equal starts_with
is_reolink_test_file name =
    let lower = to_ascii_lowercase name in
    codes_equal lower (codes "test")
    || starts_with lower (codes "test.")
    || starts_with lower (codes "testftp")
