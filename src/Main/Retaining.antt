-- ===== src/Main/Retaining.antt =====
-- About `cleanup` of src/main.rs: the limit that it sweeps with.
use ftp_reolink.Base.{
  ℕ, ◌*◌, ◌≤◌, ◌≡◌, ◌↔◌, refl, ap, ◌∙◌, String, Bool, Option, List, Result, ok, err, map_err, ◌>>◌,
  arith,
}
use ftp_reolink.Config.{Config, Invalid, invalid, load, validate}
use ftp_reolink.Retention.{Entries, Policy, is_quarantine, sweep}
use ftp_reolink.Retention.Spared.{spared, sweep_spares}
use ftp_reolink.Main.{retention_secs, from_secs, cleanup_policy, cleanup_loaded, cleanup}

-- The days of a retention are turned into seconds exactly when they are at most 213503982334601.
pub retention_secs_iff :
    (days : ℕ) → (retention_secs days ≡ days * 86400) ↔ (days ≤ 213503982334601)
unfolding retention_secs
retention_secs_iff days = (λ e. omega arith, λ h. omega arith)

-- What a sweep of days, hours and hours means.
abbrev pub intended : Config → ℕ → Policy
intended cfg now = record {
  retention = from_secs (cfg.archive.retention_days * 86400);
  quarantine_ttl = from_secs 3600;
  staging_ttl = from_secs 3600;
  now = now;
}

module _ {Recipient : Type 0} (parse_recipient : String → Option Recipient) where
  -- Whatever was read as the configuration `cfg`, with at most 213503982334601 days, and whatever
  -- calls fail, `cleanup` touches no file that is younger than its limit: the days of the
  -- configuration, or an hour in a quarantine directory or under a staging name.
  pub cleanup_spares :
      (cfg : Config) (dry_run : Bool) (now : ℕ) (es : Entries) (faults : List Bool)
      → cfg.archive.retention_days ≤ 213503982334601
      → spared
          (intended cfg now)
          cfg.archive.root
          (is_quarantine cfg.archive.root)
          (cleanup parse_recipient (ok cfg) dry_run now es faults).0
        ≡ spared (intended cfg now) cfg.archive.root (is_quarantine cfg.archive.root) es
  unfolding cleanup load
  cleanup_spares cfg dry_run now es faults h = go (validate parse_recipient cfg)
    where
      secs : cleanup_policy cfg now ≡ intended cfg now
      secs =
          ap
            (λ n. record {
              retention = from_secs n;
              quarantine_ttl = from_secs 3600;
              staging_ttl = from_secs 3600;
              now = now;
            })
            ((retention_secs_iff cfg.archive.retention_days).1 h)

      q : Bool
      q = is_quarantine cfg.archive.root

      go :
          (r : Result Invalid (Unit {0}))
          → spared
              (intended cfg now)
              cfg.archive.root
              q
              (cleanup_loaded (map_err invalid r >> ok cfg) dry_run now es faults).0
            ≡ spared (intended cfg now) cfg.archive.root q es
      go (err e) = refl
      go (ok u) =
          ap
            (λ policy.
              spared (intended cfg now) cfg.archive.root q
                (sweep policy dry_run cfg.archive.root es faults).0)
            secs
          ∙ sweep_spares (intended cfg now) dry_run cfg.archive.root es faults
