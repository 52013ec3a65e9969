-- ===== src/Auth/Examples.antt =====
-- Unit tests of src/auth.rs, and the theorems at concrete logins. Here a hash is the password.
use ftp_reolink.Base.{
  ◌≡◌, refl, String, Bool, true, Option, none, some, [], ◌∷◌, ◌==◌, string_eq, ok, err, string_dec,
}
use ftp_reolink.Base.Dict.{lookup}
use ftp_reolink.Path.{root_dir, normal}
use ftp_reolink.Limits.{new, live, push_session, try_admit}
use ftp_reolink.Account.{Account, Accounts, uploader}
use ftp_reolink.Auth.{
  plaintext, tls, Credentials, tls_required, connection_limit_reached, channel_is_secure,
  verify_password, check_credentials, authenticate,
}
use ftp_reolink.Auth.Gate.{Holds, MayEnter, authenticate_needs}

abbrev same_text : String → String → Bool
same_text plain hash = plain == hash

abbrev read_text : String → Option String
read_text s = some s

abbrev cam : Account
cam = record {
  username = "cam";
  password_hash = "secret";
  role = uploader (root_dir ∷ normal "srv" ∷ normal "cam" ∷ []);
  require_tls = true;
}

abbrev accounts : Accounts
accounts = ("cam", cam) ∷ []

abbrev over_tls : Credentials
over_tls = record { password = some "secret"; command_channel_security = tls }

abbrev in_clear : Credentials
in_clear = record { password = some "secret"; command_channel_security = plaintext }

enters : (authenticate read_text same_text accounts "cam" over_tls 7 (new 2 none)).1 ≡ ok "cam"
unfolding authenticate check_credentials verify_password channel_is_secure try_admit new live
    push_session lookup string_dec
enters = refl

require_tls_rejects_plaintext :
    (authenticate read_text same_text accounts "cam" in_clear 7 (new 2 none)).1 ≡ err tls_required
unfolding authenticate check_credentials verify_password channel_is_secure lookup string_dec
require_tls_rejects_plaintext = refl

full_server_refuses :
    (authenticate read_text same_text accounts "cam" over_tls 7 (new 0 none)).1
    ≡ err connection_limit_reached
unfolding authenticate check_credentials verify_password channel_is_secure try_admit new lookup
    string_dec
full_server_refuses = refl

cam_is_listed : lookup "cam" accounts ≡ some cam
unfolding lookup string_dec
cam_is_listed = refl

secret_is_right : same_text "secret" "secret" ≡ true
unfolding string_dec
secret_is_right = refl

cam-Holds : Holds read_text same_text accounts "cam" "secret" cam
cam-Holds = record {
  listed = cam_is_listed;
  hash = "secret";
  readable = refl;
  verified = secret_is_right;
}

has_room : (try_admit "cam" 7 (new 2 none)).1 ≡ true
unfolding try_admit new live push_session string_dec
has_room = refl

authenticate_needs_example :
    (◌≡◌ {A = String} "cam" "cam")
    × ((acct : Account) × MayEnter read_text same_text accounts "cam" over_tls 7 (new 2 none) acct)
    × ((authenticate read_text same_text accounts "cam" over_tls 7 (new 2 none)).0
        ≡ (try_admit "cam" 7 (new 2 none)).0)
authenticate_needs_example =
    authenticate_needs read_text same_text accounts "cam" over_tls 7 (new 2 none) "cam" enters
