-- ===== src/Config/Sample.antt =====
-- A configuration like the one in the tests of src/config.rs and src/account.rs: two cameras, one
-- with a login of its own, one group, one viewer of all and one of a list, and encryption.
use ftp_reolink.Base.{String, true, Option, none, some, [], ◌∷◌}
use ftp_reolink.Path.{root_dir, normal}
use ftp_reolink.Config.{Config, all, listed}

-- A parser that takes every text for a key.
abbrev pub any_key : String → Option String
any_key s = some s

abbrev pub sample : Config
sample = record {
  server = record {
    listen = "0.0.0.0";
    port = 2121;
    passive_lo = 50000;
    passive_hi = 50100;
    passive_host = none;
    greeting = none;
    tls_cert = none;
    tls_key = none;
  };
  archive = record { root = root_dir ∷ normal "srv" ∷ []; retention_days = 30 };
  limits = record {
    max_connections = 100;
    max_connections_per_ip = 20;
    new_conns_per_min_per_ip = 30;
    idle_timeout_secs = 300;
    min_transfer_rate_bytes_per_sec = 0;
    failed_login_lockout = record { max_attempts = 5; window_secs = 300; ban_secs = 900 };
    max_connections_per_account = some 5;
  };
  camera =
      record {
        name = "front-door";
        username = none;
        upload_password_hash = "h1";
        require_tls = none;
      }
      ∷ record {
        name = "driveway";
        username = some "cam2";
        upload_password_hash = "h2";
        require_tls = some true;
      }
      ∷ [];
  group = ("outdoor", "front-door" ∷ "driveway" ∷ []) ∷ [];
  viewer =
      record { name = "admin"; password_hash = "h3"; scope = all }
      ∷ record { name = "guard"; password_hash = "h4"; scope = listed ("outdoor" ∷ []) }
      ∷ [];
  encryption = some (record { recipients = "age1" ∷ [] });
}
