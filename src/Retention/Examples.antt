-- ===== src/Retention/Examples.antt =====
-- Unit tests of src/retention.rs, and the theorems at a small archive.
use ftp_reolink.Base.{
  arith, Bool, true, false, none, some, List, [], ◌∷◌, ◌≡◌, refl, ok, err, string_dec,
}
use ftp_reolink.Base.Text.{ends_with}
use ftp_reolink.Path.{FilePath, root_dir, normal, file_name}
use ftp_reolink.Retention.{
  Entries, nil, file, folder, Policy, SweepReport, older_than, ttl_of, or_stop, visit_file, prune,
  visit_folder, visit_entries, is_quarantine, sweep,
}
use ftp_reolink.Retention.Spared.{spared, sweep_spares}
use ftp_reolink.Retention.Exact.{left, gone, emptied, sweep_exact}
use ftp_reolink.Retention.DryRun.{sweep_dry_run}
use ftp_reolink.Retention.Converging.{at_time, sweep-sweep}

-- Footage lives for 30 units, staging and probe files for 1.
abbrev policy : Policy
policy = record { retention = 30; quarantine_ttl = 1; staging_ttl = 1; now = 100 }

abbrev root : FilePath
root = root_dir ∷ normal "srv" ∷ []

abbrev archive : Entries
archive =
    folder "cam"
      (folder "day" (file "old.mp4" (some 60) nil)
        (file "new.mp4" (some 99) (file "half.reoftpd-partial" (some 98) nil)))
      (folder ".quarantine" (file "test" (some 99) (file "test2" none nil)) nil)

abbrev swept : Entries
swept =
    folder "cam" (file "new.mp4" (some 99) nil)
      (folder ".quarantine" (file "test" (some 99) (file "test2" none nil)) nil)

deletes_old_keeps_new : (sweep policy false root archive []).0 ≡ swept
unfolding sweep visit_entries visit_file visit_folder prune or_stop older_than ttl_of ends_with
    string_dec file_name
deletes_old_keeps_new = refl

-- The first call of the sweep fails.
stops_at_a_fault : sweep policy false root archive (true ∷ []) ≡ (archive, err tt)
unfolding sweep or_stop
stops_at_a_fault = refl

sweep_spares_example :
    spared policy root
      (is_quarantine root)
      (sweep policy false root archive (false ∷ false ∷ true ∷ [])).0
    ≡ spared policy root (is_quarantine root) archive
sweep_spares_example = sweep_spares policy false root archive (false ∷ false ∷ true ∷ [])

sweep_exact_example : sweep policy false root archive [] ≡ (
  left policy (is_quarantine root) archive,
  ok (record {
    deleted = gone policy root (is_quarantine root) archive;
    pruned_dirs = emptied policy root (is_quarantine root) archive;
  }),
)
sweep_exact_example = sweep_exact policy root archive

sweep_dry_run_example :
    ((faults : List Bool) → (sweep policy true root archive faults).0 ≡ archive)
    × ((planned : SweepReport) × (done : SweepReport) × ((sweep policy true root archive []).1
          ≡ ok planned)
        × ((sweep policy false root archive []).1 ≡ ok done)
        × (planned.deleted ≡ done.deleted))
sweep_dry_run_example = sweep_dry_run policy root archive

sweep-sweep_example :
    let later = sweep (at_time policy 120) false root in
    ((later (sweep policy false root archive (false ∷ false ∷ true ∷ [])).0 []).0
      ≡ (later archive []).0)
    × (later (later archive []).0 []
        ≡ ((later archive []).0, ok (record { deleted = []; pruned_dirs = [] })))
sweep-sweep_example =
    sweep-sweep policy 120 false root archive (false ∷ false ∷ true ∷ []) (omega arith)
