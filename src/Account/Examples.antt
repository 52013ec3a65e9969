-- ===== src/Account/Examples.antt =====
-- The theorems at the sample configuration.
use ftp_reolink.Base.{
  ◌≡◌, refl, String, false, none, some, [], ◌∷◌, ok, All, contains, string_eq, string_dec,
  if◌then◌else◌,
}
use ftp_reolink.Base.Dict.{lookup, insert, keys}
use ftp_reolink.Path.{join, path_of}
use ftp_reolink.Scope.{multi}
use ftp_reolink.Config.{
  listed, login, check_cameras, check_members, check_groups, check_viewers, check_items,
  check_scopes, parse_recipients, check_encryption, validate,
}
use ftp_reolink.Config.Sample.{any_key, sample}
use ftp_reolink.Config.Valid.{camera_logins}
use ftp_reolink.Account.{
  item_names, add_names, collect_names, roots_of, expand_scope, camera_account, viewer_account,
  build,
}
use ftp_reolink.Account.Expand.{grants, lookup-expand_scope}
use ftp_reolink.Account.Logins.{viewer_names, build_accounts}

valid : validate any_key sample ≡ ok tt
unfolding validate check_cameras login check_groups check_members check_viewers check_scopes
    check_items lookup check_encryption parse_recipients string_dec
valid = refl

expand_group_scope :
    keys (expand_scope sample.archive.root sample.group (listed ("outdoor" ∷ []))).roots
    ≡ "driveway" ∷ "front-door" ∷ []
unfolding expand_scope collect_names add_names item_names roots_of multi lookup insert keys
    string_dec
expand_group_scope = refl

lookup-expand_scope_example :
    lookup "driveway"
      (expand_scope sample.archive.root sample.group (listed ("outdoor" ∷ "porch" ∷ []))).roots
    ≡ (if grants sample.group ("outdoor" ∷ "porch" ∷ []) "driveway"
        then some (join sample.archive.root (path_of "driveway"))
        else none)
lookup-expand_scope_example =
    lookup-expand_scope sample.archive.root sample.group ("outdoor" ∷ "porch" ∷ []) "driveway"

build_accounts_example :
    All
      (λ cam. lookup (login cam) (build sample) ≡ some (camera_account sample.archive.root cam))
      sample.camera
    × All
        (λ v.
          lookup v.name (build sample) ≡ some (viewer_account sample.archive.root sample.group v))
        sample.viewer
    × ((u : String)
        → contains (camera_logins sample.camera) u ≡ false
        → contains (viewer_names sample.viewer) u ≡ false
        → lookup u (build sample) ≡ none)
build_accounts_example = build_accounts any_key sample valid
