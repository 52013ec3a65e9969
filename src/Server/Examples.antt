-- ===== src/Server/Examples.antt =====
-- Unit tests of src/server.rs, and the theorems at the sample configuration.
use native.Mathlib.Decide.{ℕ_discrete}
use ftp_reolink.Base.{
  none, ℕ, Option, ◌==◌, string_eq, if◌then◌else◌, arith, ◌≡◌, refl, some, [], ◌∷◌, ok, All,
  string_dec, false,
}
use ftp_reolink.Base.Dict.{lookup}
use ftp_reolink.Path.{path_dec, component_dec, path_of, join}
use ftp_reolink.Config.{
  login, check_cameras, check_members, check_groups, check_viewers, check_items, check_scopes,
  parse_recipients, check_encryption, validate,
}
use ftp_reolink.Config.Sample.{any_key, sample}
use ftp_reolink.Account.{camera_account, build}
use ftp_reolink.Limits.{new}
use ftp_reolink.Disk.{node_at, make_dirs, create_dirs_effect}
use ftp_reolink.Disk.Act.{World, at_turn, take_turn, ◌>>=◌}
use ftp_reolink.Server.{Running, ensure_home_dirs, reload_config}
use ftp_reolink.Server.Privileges.{UserIds, UserDatabase, drop_privileges, drop_privileges_lem}
use ftp_reolink.Server.Reload.{Serves, Outcome, reload_config_lem}
use ftp_reolink.Server.Homes.{HomeIsDir, ensure_home_dirs_lem}

abbrev empty_world : World
empty_world = record {
  disk = record { names = []; bytes = λ i. []; modes = λ i. 438; next = 0 };
  turns = record { meanwhile = λ d. d; fault = false } ∷ [];
}

abbrev running : Running
running = record { accounts = build sample; sessions = new 100 (some 5) }

sample_is_valid : validate any_key sample ≡ ok tt
unfolding validate check_cameras login check_groups check_members check_viewers check_scopes
    check_items lookup check_encryption parse_recipients string_dec
sample_is_valid = refl

running-Serves : Serves any_key running
unfolding new
running-Serves = record {
  cfg = sample;
  valid = sample_is_valid;
  accounts = refl;
  global = refl;
  per_account = refl;
}

reload_config_lem_example :
    Outcome any_key
      (ok sample)
      running
      (reload_config any_key (ok sample) running empty_world).0.0
      (reload_config any_key (ok sample) running empty_world).0.1
reload_config_lem_example = reload_config_lem any_key (ok sample) running empty_world

homes_are_made : (ensure_home_dirs sample.archive.root sample.camera empty_world).0 ≡ ok tt
unfolding ensure_home_dirs take_turn at_turn create_dirs_effect make_dirs node_at path_dec
    component_dec string_dec join path_of ◌>>=◌ ℕ_discrete
homes_are_made = refl

ensure_home_dirs_lem_example :
    All
      (λ cam.
        HomeIsDir
          (camera_account sample.archive.root cam).role
          (ensure_home_dirs sample.archive.root sample.camera empty_world).1.disk)
      sample.camera
ensure_home_dirs_lem_example =
    ensure_home_dirs_lem sample.archive.root sample.camera empty_world (λ e. cc) ((λ p d k. k), tt)
      homes_are_made

abbrev set_group : ℕ → UserIds → Option UserIds
set_group g p = some (record p { gid = g })

abbrev set_user : ℕ → UserIds → Option UserIds
set_user u p = some (record p { uid = u })

abbrev one_user : UserDatabase
one_user name =
    if name == "reoftpd" then some (some (record { uid = 990; gid = 991 })) else some none

abbrev superuser : UserIds
superuser = record { uid = 0; gid = 0 }

drops : (drop_privileges set_group set_user one_user "reoftpd" superuser).1 ≡ ok tt
unfolding drop_privileges string_dec
drops = refl

set_group_sets : (g : ℕ) (p q : UserIds) → set_group g p ≡ some q → (q.gid ≡ g) × (q.uid ≡ p.uid)
set_group_sets g p q e = (ground arith, ground arith)

set_user_sets : (u : ℕ) (p q : UserIds) → set_user u p ≡ some q → (q.uid ≡ u) × (q.gid ≡ p.gid)
set_user_sets u p q e = (ground arith, ground arith)

drop_privileges_lem_example :
    one_user "reoftpd"
    ≡ some (some (drop_privileges set_group set_user one_user "reoftpd" superuser).0)
drop_privileges_lem_example =
    drop_privileges_lem set_group set_user one_user "reoftpd" superuser set_group_sets set_user_sets
      drops
