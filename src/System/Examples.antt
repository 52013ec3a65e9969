-- ===== src/System/Examples.antt =====
-- Unit tests of the running server, and the theorems at the sample configuration.
use native.Mathlib.Decide.{ℕ_discrete}
use ftp_reolink.Base.{inr}
use ftp_reolink.Base.{
  ℕ, Bool, String, Option, none, some, List, [], ◌∷◌, ◌≡◌, ◌==◌, refl, string_eq, string_dec,
  contains, ok, err, arith, true, false, inl,
}
use ftp_reolink.Base.Dict.{lookup, insert}
use ftp_reolink.Path.{FilePath, path_dec, component_dec, path_of, join, root_dir, normal}
use ftp_reolink.Config.{
  Config, parse, login, check_cameras, check_members, check_groups, check_viewers, check_items,
  check_scopes, parse_recipients, check_encryption, validate,
}
use ftp_reolink.Config.Sample.{any_key, sample}
use ftp_reolink.Account.{
  build, add_cameras, add_viewers, camera_account, viewer_account, expand_scope,
}
use ftp_reolink.Limits.{new, live, try_admit}
use ftp_reolink.Auth.{
  ReoUser, Credentials, tls, authenticate, provide_user_detail, check_credentials, verify_password,
}
use ftp_reolink.Disk.{Disk, node_at, make_dirs, create_dirs_effect}
use ftp_reolink.Disk.Act.{World, at_turn, take_turn, ◌>>=◌}
use ftp_reolink.Backend.Handlers.{ReoBackend}
use ftp_reolink.Account.{uploader, viewing}
use ftp_reolink.Scope.{single}
use ftp_reolink.Config.{all}
use ftp_reolink.Config.Valid.{camera_logins}
use ftp_reolink.Auth.{channel_is_secure}
use ftp_reolink.Config.{load}
use ftp_reolink.Server.{reload_config}
use ftp_reolink.System.{Among}
use ftp_reolink.Disk.Keeping.{Kept}
use ftp_reolink.Backend.Sample as Sample
use ftp_reolink.Backend.Sample.{clip, clip_solid, clip-Kept}
use ftp_reolink.Backend.Requests.{Request, Scratch}
use ftp_reolink.Server.{ensure_home_dirs, start, build_server}
use ftp_reolink.System.{
  System, launch, gated, entered, asked, ticked, reloaded, Reach, here, later, gate, details,
  request, tick, hangup,
}
use ftp_reolink.System.Invariant.{Sane}
use ftp_reolink.System.Safety.{launched-Sane, launched-Kept}
use ftp_reolink.System.Entering.{Listed, authenticate-build}
use ftp_reolink.System.Users.{user_of}
use ftp_reolink.Account.{Account}
use ftp_reolink.Auth.Gate.{given_password}
use ftp_reolink.System.Logins.{Shut, serving-Shut, Serving}

abbrev readable : String → Option String
readable s = some s

abbrev same_text : String → String → Bool
same_text p q = p == q

abbrev in_place : Disk → FilePath → Option FilePath
in_place d p = some p

abbrev as_is : List String → List (List ℕ) → Bool → List (List ℕ) × Bool
as_is keys chunks breaks = (chunks, breaks)

abbrev empty_world : World
empty_world = record {
  disk = record { names = []; bytes = λ i. []; modes = λ i. 438; next = 0 };
  turns = record { meanwhile = λ d. d; fault = false } ∷ [];
}

abbrev keyed : ReoBackend String
keyed = record { recipients = some ("age1" ∷ []) }

abbrev launched : System
launched = record {
  running = record { accounts = build sample; sessions = new 100 (some 5) };
  proven = [];
  users = [];
  world = (start sample empty_world).1;
}

sample_launches : launch any_key sample empty_world ≡ ok (launched, keyed)
unfolding launch start build_server parse_recipients ensure_home_dirs take_turn at_turn
    create_dirs_effect make_dirs node_at path_dec component_dec string_dec join path_of ◌>>=◌
    ℕ_discrete
sample_launches = refl

abbrev by_admin : Credentials
by_admin = record { password = some "h3"; command_channel_security = tls }

abbrev let_in : System
let_in = gated any_key readable same_text "admin" by_admin 7 launched

abbrev with_admin : System
with_admin = entered "admin" let_in

abbrev reloads_nothing : System
reloads_nothing = reloaded any_key (err parse) with_admin

abbrev swept : System
swept = ticked 1 100 reloads_nothing

admin_is_let_in : let_in.proven ≡ "admin" ∷ []
unfolding authenticate check_credentials verify_password lookup build add_cameras add_viewers
    camera_account viewer_account expand_scope login insert string_dec try_admit new live
admin_is_let_in = refl

admin_is_proven : contains let_in.proven "admin" ≡ true
admin_is_proven = ground (arith, admin_is_let_in)

session : Reach any_key readable same_text in_place as_is keyed launched swept
session =
    later
      (later
        (later (later here (gate "admin" by_admin 7 refl)) (details "admin" admin_is_proven refl))
        (hangup (err parse) tt refl))
      (tick 1 100 refl)

sample_is_valid : validate any_key sample ≡ ok tt
unfolding validate check_cameras login check_groups check_members check_viewers check_scopes
    check_items lookup check_encryption parse_recipients string_dec
sample_is_valid = refl

launched-Sane_example : Sane any_key swept
launched-Sane_example =
    launched-Sane any_key readable same_text in_place as_is sample empty_world launched swept keyed
      sample_is_valid (omega arith) sample_launches session

abbrev on_disk : World
on_disk = Sample.session

-- The server on a disk that has a finished file.
abbrev on_archive : System
on_archive = record launched { world = (start sample on_disk).1 }

archive_launches : launch any_key sample on_disk ≡ ok (on_archive, keyed)
unfolding launch start build_server parse_recipients ensure_home_dirs take_turn at_turn
    create_dirs_effect make_dirs node_at path_dec component_dec string_dec join path_of ◌>>=◌
    ℕ_discrete
archive_launches = refl

abbrev overwriting : Request
overwriting = Request.put (record { chunks = (5 ∷ []) ∷ []; breaks = false }) clip 0

abbrev by_cam2 : Credentials
by_cam2 = record { password = some "h2"; command_channel_security = tls }

abbrev cam2_let_in : System
cam2_let_in = gated any_key readable same_text "cam2" by_cam2 7 on_archive

cam2_is_proven : contains cam2_let_in.proven "cam2" ≡ true
unfolding authenticate check_credentials verify_password lookup build add_cameras add_viewers
    camera_account viewer_account login insert string_dec try_admit new live channel_is_secure
cam2_is_proven = refl

abbrev with_cam2 : System
with_cam2 = entered "cam2" cam2_let_in

abbrev cam2 : ReoUser
cam2 = record {
  login = "cam2";
  role = uploader (root_dir ∷ normal "srv" ∷ normal "driveway" ∷ []);
  require_tls = true;
}

cam2_is_served : Among cam2 with_cam2.users
unfolding provide_user_detail lookup build add_cameras add_viewers camera_account viewer_account
    login insert string_dec join path_of ℕ_discrete
cam2_is_served = inl refl

uploads :
    Reach any_key readable same_text in_place as_is keyed on_archive
      (asked any_key readable same_text in_place as_is keyed cam2 overwriting with_cam2)
uploads =
    later (later (later here (gate "cam2" by_cam2 7 refl)) (details "cam2" cam2_is_proven refl))
      (request cam2 overwriting cam2_is_served refl)

launched-Kept_example :
    Kept Scratch clip 0
      (1 ∷ 2 ∷ [])
      (asked any_key readable same_text in_place as_is keyed cam2 overwriting with_cam2).world.disk
launched-Kept_example =
    launched-Kept any_key readable same_text in_place as_is sample on_disk on_archive _ keyed clip 0
      (1 ∷ 2 ∷ []) clip_solid ((λ d k. k), tt) clip-Kept archive_launches uploads

-- The sample without its viewers.
abbrev no_viewers : Config
no_viewers = record sample { viewer = [] }

no_viewers_is_valid : validate any_key no_viewers ≡ ok tt
unfolding validate check_cameras login check_groups check_members check_viewers check_scopes
    check_items lookup check_encryption parse_recipients string_dec
no_viewers_is_valid = refl

-- A reload takes the admin away while one is served.
abbrev dismissed : System
dismissed = reloaded any_key (ok no_viewers) with_admin

dismissed_accounts : dismissed.running.accounts ≡ build no_viewers
unfolding reload_config load validate check_cameras login check_groups check_members check_viewers
    check_scopes check_items lookup check_encryption parse_recipients string_dec start
    ensure_home_dirs take_turn at_turn create_dirs_effect make_dirs node_at path_dec component_dec
    join path_of ◌>>=◌ ℕ_discrete
dismissed_accounts = refl

abbrev tried_again : System
tried_again = gated any_key readable same_text "admin" by_admin 9 dismissed

no_camera_admin : contains (camera_logins no_viewers.camera) "admin" ≡ false
unfolding login string_dec
no_camera_admin = refl

serving-Shut_example : Shut no_viewers "admin" dismissed tried_again
serving-Shut_example =
    serving-Shut any_key readable same_text in_place as_is keyed no_viewers no_viewers_is_valid
      "admin" no_camera_admin refl dismissed dismissed_accounts
      (Serving.after Serving.idle (gate "admin" by_admin 9 refl) (λ h. h))

-- `eve`'s password as a camera was proven, then a reload made `eve` a viewer of everything.
abbrev eve_a_camera : Config
eve_a_camera = record no_viewers {
  camera =
      record { name = "eve"; username = none; upload_password_hash = "h5"; require_tls = none }
      ∷ [];
  group = [];
}

abbrev eve_a_viewer : Config
eve_a_viewer = record eve_a_camera {
  camera = [];
  viewer = record { name = "eve"; password_hash = "h6"; scope = all } ∷ [];
}

abbrev raced : System
raced = entered "eve" (
    reloaded any_key (ok eve_a_viewer) (
      gated any_key readable same_text "eve"
        (record { password = some "h5"; command_channel_security = tls }) 7
        (record launched {
          running = record { accounts = build eve_a_camera; sessions = new 100 none };
        })))

reload_before_details_gives_new_rights :
    raced.users
    ≡ record {
      login = "eve";
      role = viewing (single (root_dir ∷ normal "srv" ∷ []));
      require_tls = false;
    }
      ∷ []
unfolding authenticate check_credentials verify_password reload_config load validate check_cameras
    login check_groups check_members check_viewers check_scopes check_items lookup check_encryption
    parse_recipients string_dec ℕ_discrete start build add_cameras add_viewers provide_user_detail
    camera_account viewer_account insert expand_scope try_admit new live ensure_home_dirs take_turn
    at_turn create_dirs_effect make_dirs node_at path_dec component_dec join path_of ◌>>=◌
reload_before_details_gives_new_rights = refl

-- The second camera of the sample, which must use TLS.
abbrev driveway : Account
driveway = camera_account sample.archive.root (record {
  name = "driveway";
  username = some "cam2";
  upload_password_hash = "h2";
  require_tls = some true;
})

cam2-Listed : Listed sample "cam2" driveway
unfolding login
cam2-Listed = inl (inr (inl (refl, refl)))

hash_is_read : readable driveway.password_hash ≡ some "h2"
unfolding camera_account
hash_is_read = refl

hash_matches : same_text (given_password by_cam2) "h2" ≡ true
unfolding string_dec
hash_matches = refl

slot_is_free : (try_admit "cam2" 7 (new 100 (some 5))).1 ≡ true
unfolding try_admit new live
slot_is_free = refl

authenticate-build_example :
    ((authenticate readable same_text (build sample) "cam2" by_cam2 7 (new 100 (some 5))).1
      ≡ ok "cam2")
    × (provide_user_detail (build sample) "cam2" ≡ ok (user_of driveway))
authenticate-build_example =
    authenticate-build any_key readable same_text sample "cam2" driveway by_cam2 7
      (new 100 (some 5)) "h2" sample_is_valid cam2-Listed hash_is_read hash_matches (λ e. refl)
      slot_is_free
