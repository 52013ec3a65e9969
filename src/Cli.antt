-- ===== src/Cli.antt =====
-- src/cli.rs: the commands, past the parser of arguments, and the snippets that `add-camera` and
-- `add-viewer` append to the configuration.
pub mod Viewers
mod Examples
use ftp_reolink.Base.{
  String, ◌<>◌, Bool, true, false, Option, none, some, List, map, ◌==◌, string_eq, if◌then◌else◌,
}
use ftp_reolink.Base.Text.{split, trim, join_texts}
use ftp_reolink.Path.{FilePath}

pub data Command : Type 0 where
  serve : FilePath → Command
  cleanup : FilePath → Bool → Command
  add_camera : String → Option String → Bool → Command
  add_viewer : String → String → Command
  hash_password : Command
  nftables : FilePath → Command
  gencert : List String → FilePath → FilePath → Command
  genkey : Option FilePath → Command
  decrypt : FilePath → Option FilePath → List FilePath → Command

-- `format!("\"{}\"", s)`
abbrev pub quoted : String → String
quoted s = "\"" <> (s <> "\"")

abbrev pub username_line : Option String → String
username_line none = ""
username_line (some u) = "username = " <> (quoted u <> "\n")

unfoldable pub render_camera_entry : String → Option String → String → Bool → String
render_camera_entry name username hash require_tls =
    ("\n[[camera]]\nname = " <> (quoted name <> "\n"))
    <> (username_line username
        <> (("upload_password_hash = " <> (quoted hash <> "\n"))
            <> (if require_tls then "require_tls = true\n" else "")))

-- The items between the commas, each trimmed and quoted.
abbrev pub scope_items : String → List String
scope_items scope = map (λ x. quoted (trim x)) (split b',' scope)

abbrev pub scope_toml : String → String
scope_toml scope =
    if scope == "all" then "\"all\"" else "[" <> (join_texts ", " (scope_items scope) <> "]")

unfoldable pub render_viewer_entry : String → String → String → String
render_viewer_entry name hash scope =
    "\n[[viewer]]\nname = "
    <> (quoted name
        <> ("\npassword_hash = " <> (quoted hash <> ("\nscope = " <> (scope_toml scope <> "\n")))))
