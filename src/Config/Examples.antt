-- ===== src/Config/Examples.antt =====
-- Unit tests of src/config.rs, and the theorem at the sample configuration.
use ftp_reolink.Base.{◌≡◌, refl, none, some, [], ◌∷◌, ok, err, string_dec}
use ftp_reolink.Base.Dict.{lookup}
use ftp_reolink.Config.{
  all, deserialize_scope, text, login, duplicate_camera, no_recipients, viewer_collides,
  check_cameras, check_members, check_groups, check_viewers, check_items, check_scopes,
  parse_recipients, check_encryption, validate,
}
use ftp_reolink.Config.Sample.{any_key, sample}
use ftp_reolink.Config.Valid.{IsValid, validate-IsValid}

scope_of_all : deserialize_scope (text "all") ≡ some all
unfolding deserialize_scope string_dec
scope_of_all = refl

sample_is_valid : validate any_key sample ≡ ok tt
unfolding validate check_cameras login check_groups check_members check_viewers check_scopes
    check_items lookup check_encryption parse_recipients string_dec
sample_is_valid = refl

rejects_empty_recipients :
    validate any_key (record sample { encryption = some (record { recipients = [] }) })
    ≡ err no_recipients
unfolding validate check_cameras login check_groups check_members check_viewers check_scopes
    check_items lookup check_encryption string_dec
rejects_empty_recipients = refl

rejects_duplicate_cameras :
    validate any_key (record sample {
      camera =
          record { name = "x"; username = none; upload_password_hash = "h"; require_tls = none }
          ∷ record {
            name = "x";
            username = some "y";
            upload_password_hash = "h";
            require_tls = none;
          }
          ∷ [];
    })
    ≡ err (duplicate_camera "x")
unfolding validate check_cameras login string_dec
rejects_duplicate_cameras = refl

rejects_viewer_camera_collision :
    validate any_key
      (record sample { viewer = record { name = "cam2"; password_hash = "h"; scope = all } ∷ [] })
    ≡ err (viewer_collides "cam2")
unfolding validate check_cameras login check_groups check_members check_viewers string_dec
rejects_viewer_camera_collision = refl

validate-IsValid_example : IsValid sample
validate-IsValid_example = validate-IsValid any_key sample sample_is_valid
