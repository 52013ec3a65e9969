-- ===== src/Cli/Examples.antt =====
-- Unit tests of src/cli.rs, and the theorem at a scope of two names.
use text.Mathlib.TextEquality.{eq_iff}
use native.Mathlib.Decide.{ℕ_discrete}
use ftp_reolink.Base.{
  String, none, some, true, false, [], ◌∷◌, map, ◌≡◌, ◌≢◌, refl, arith, string_dec,
}
use ftp_reolink.Base.Text.{
  split, cons_head, trim, trim_start, trim_end_matches, is_whitespace, join_texts,
}
use ftp_reolink.Base.Text.Split.{Lacks, lacks, lacks-Lacks}
use ftp_reolink.Base.Text.Trim.{Blank, SolidEnd}
use ftp_reolink.Cli.{render_camera_entry, render_viewer_entry}
use ftp_reolink.Cli.Viewers.{
  Item, typed, IsItem, IsPlain, name_of, between_names, split-render_viewer_entry,
}

camera_entry_omits_username_when_default :
    render_camera_entry "driveway" none "$argon2id$y" false
    ≡ "\n[[camera]]\nname = \"driveway\"\nupload_password_hash = \"$argon2id$y\"\n"
unfolding render_camera_entry
camera_entry_omits_username_when_default = refl

camera_entry_includes_username_and_tls :
    render_camera_entry "front-door" (some "cam-fd") "$argon2id$x" true
    ≡ "\n[[camera]]\nname = \"front-door\"\nusername = \"cam-fd\"\nupload_password_hash = \"$argon2id$x\"\nrequire_tls = true\n"
unfolding render_camera_entry
camera_entry_includes_username_and_tls = refl

viewer_entry_all_scope :
    render_viewer_entry "admin" "$argon2id$z" "all"
    ≡ "\n[[viewer]]\nname = \"admin\"\npassword_hash = \"$argon2id$z\"\nscope = \"all\"\n"
unfolding render_viewer_entry string_dec
viewer_entry_all_scope = refl

viewer_entry_list_scope :
    render_viewer_entry "patio" "$argon2id$w" "outdoor,front-door"
    ≡ "\n[[viewer]]\nname = \"patio\"\npassword_hash = \"$argon2id$w\"\nscope = [\"outdoor\", \"front-door\"]\n"
unfolding render_viewer_entry string_dec split cons_head trim trim_start trim_end_matches
    is_whitespace join_texts ℕ_discrete
viewer_entry_list_scope = refl

abbrev yard : Item
yard = record { before = ""; name = "yd"; after = "" }

abbrev gate : Item
gate = record { before = " "; name = "g"; after = "\t" }

to_plain : (s : String) → lacks b'"' s ≡ true → lacks b'\\' s ≡ true → IsPlain s
to_plain s h k = record { no_quote = lacks-Lacks b'"' s h; no_backslash = lacks-Lacks b'\\' s k }

yard-IsItem : IsItem yard
unfolding Blank Lacks lacks SolidEnd is_whitespace ℕ_discrete
yard-IsItem = record {
  before_blank = tt;
  after_blank = tt;
  plain = to_plain "yd" refl refl;
  no_comma = (λ e. omega (arith, e), (λ e. omega (arith, e), tt));
  starts = refl;
  ends = refl;
}

gate-IsItem : IsItem gate
unfolding Blank Lacks lacks SolidEnd is_whitespace ℕ_discrete
gate-IsItem = record {
  before_blank = (refl, tt);
  after_blank = (refl, tt);
  plain = to_plain "g" refl refl;
  no_comma = (λ e. omega (arith, e), tt);
  starts = refl;
  ends = refl;
}

not_all : join_texts "," (map typed (yard ∷ gate ∷ [])) ≢ "all"
unfolding join_texts
not_all e = ground (arith, eq_iff "yd, g\t" "all", e)

split-render_viewer_entry_example :
    split b'"' (render_viewer_entry "patio" "$w" (join_texts "," (map typed (yard ∷ gate ∷ []))))
    ≡ "\n[[viewer]]\nname = "
      ∷ "patio"
      ∷ "\npassword_hash = "
      ∷ "$w"
      ∷ "\nscope = ["
      ∷ between_names "yd" (map name_of (gate ∷ []))
unfolding lacks ℕ_discrete
split-render_viewer_entry_example =
    split-render_viewer_entry "patio" "$w" yard (gate ∷ []) (to_plain "patio" refl refl)
      (to_plain "$w" refl refl) (yard-IsItem, (gate-IsItem, tt)) not_all
