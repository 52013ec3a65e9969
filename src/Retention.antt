-- ===== src/Retention.antt =====
-- src/retention.rs: the sweep that deletes old footage. A directory is the list of its entries;
-- `modified` is what `metadata` reports of a file, `none` where it fails. Every call of the sweep
-- takes its turn from a script of faults; a script that has ended brings no more of them. Times and
-- durations are nanoseconds. A symbolic link is a file here, as `file_type` has it.
pub mod View
pub mod Spared
pub mod Converging
pub mod Exact
pub mod DryRun
mod Examples
use ftp_reolink.Base.{
  ℕ, ◌-◌, String, Bool, true, false, ◌&&◌, Option, none, some, List, [], ◌∷◌, ◌++◌, ltb, leb, ◌==◌,
  string_eq, Result, ok, err, if◌then◌else◌,
}
use ftp_reolink.Base.Text.{ends_with}
use ftp_reolink.Path.{FilePath, join_name, file_name}
use ftp_reolink.Append.{staging_suffix, quarantine_dir}

pub data Entries : Type 0 where
  nil : Entries
  file : String → Option ℕ → Entries → Entries
  folder : String → Entries → Entries → Entries

-- The settings of one sweep.
pub record Policy : Type 0 where
  pub retention : ℕ
  pub quarantine_ttl : ℕ
  pub staging_ttl : ℕ
  pub now : ℕ

pub record SweepReport : Type 0 where
  pub deleted : List FilePath
  pub pruned_dirs : List FilePath

-- `now.duration_since(modified)` fails for a time in the future.
unfoldable pub older_than : Option ℕ → ℕ → ℕ → Bool
older_than none ttl now = false
older_than (some modified) ttl now = leb modified now && ltb ttl (now - modified)

unfoldable pub ttl_of : Policy → Bool → String → ℕ
ttl_of policy in_quarantine name =
    if in_quarantine
    then policy.quarantine_ttl
    else if ends_with name staging_suffix
    then policy.staging_ttl
    else policy.retention

-- The faults to come, and the report so far.
pub record Progress : Type 0 where
  pub faults : List Bool
  pub report : SweepReport

-- What is left of a directory, the progress, and whether an error ended the sweep.
abbrev pub Visit : Type 0
Visit = (Entries × Progress) × Result (Unit {0}) (Unit {0})

abbrev pub first_fault : List Bool → Bool
first_fault [] = false
first_fault (fault ∷ faults) = fault

abbrev pub other_faults : List Bool → List Bool
other_faults [] = []
other_faults (fault ∷ faults) = faults

-- After one more call.
abbrev pub called : Progress → Progress
called p = record p { faults = other_faults p.faults }

abbrev pub fails : Progress → Bool
fails p = first_fault p.faults

abbrev pub stop_if : Bool → Entries → (Progress → Visit) → Progress → Visit
stop_if true es next p = ((es, p), err tt)
stop_if false es next p = next p

-- A call with `?`: where it fails, the directory stays as `es`.
unfoldable pub or_stop : Entries → (Progress → Visit) → Progress → Visit
or_stop es next p = stop_if (fails p) es next (called p)

abbrev pub report_deleted : FilePath → Progress → Progress
report_deleted path p = record p {
  report = record p.report { deleted = p.report.deleted ++ (path ∷ []) };
}

abbrev pub report_pruned : FilePath → Progress → Progress
report_pruned path p = record p {
  report = record p.report { pruned_dirs = p.report.pruned_dirs ++ (path ∷ []) };
}

-- The entry stays, and the loop goes on.
abbrev pub keep_file : String → Option ℕ → (Progress → Visit) → Progress → Visit
keep_file name modified next p = let ((rest, p'), r) = next p in ((file name modified rest, p'), r)

abbrev pub keep_folder : String → Entries → (Progress → Visit) → Progress → Visit
keep_folder name sub next p = let ((rest, p'), r) = next p in ((folder name sub rest, p'), r)

-- What happens to a file, once `older_than` has judged it. `next` is the rest of the loop.
abbrev pub judged :
    Bool → Bool → FilePath → String → Option ℕ → Entries → (Progress → Visit) → Progress → Visit
judged false dry_run path name modified rest next p = keep_file name modified next p
judged true true path name modified rest next p =
    keep_file name modified next (report_deleted path p)
judged true false path name modified rest next p =
    or_stop (file name modified rest) next (report_deleted path p)

-- A file: `older_than` asks for its metadata, and takes a failure for a young file.
unfoldable pub visit_file :
    Policy
    → Bool
    → FilePath
    → Bool
    → String
    → Option ℕ
    → Entries
    → (Progress → Visit)
    → Progress
    → Visit
unfolding or_stop
visit_file policy dry_run dir in_quarantine name modified rest next p =
    let seen = if fails p then none else modified in
    judged (older_than seen (ttl_of policy in_quarantine name) policy.now) dry_run
      (join_name dir name) name modified rest next (called p)

abbrev pub is_nil : Entries → Bool
is_nil nil = true
is_nil (file name modified rest) = false
is_nil (folder name sub rest) = false

-- An emptied directory is removed, a failure is ignored.
abbrev pub pruned :
    Bool → Bool → FilePath → String → Entries → (Progress → Visit) → Progress → Visit
pruned false dry_run path name sub next p = keep_folder name sub next p
pruned true true path name sub next p = keep_folder name sub next (report_pruned path p)
pruned true false path name sub next p =
    let p' = report_pruned path p in
    if fails p' then keep_folder name sub next (called p') else next (called p')

-- `read_dir(&path)?.next().is_none()`, after the visit of `path` has left `sub` of it.
unfoldable pub prune :
    Bool → FilePath → String → Entries → Entries → (Progress → Visit) → Progress → Visit
unfolding or_stop
prune dry_run path name sub rest next p =
    or_stop (folder name sub rest)
      (λ p. pruned (if fails p then false else is_nil sub) dry_run path name sub next (called p)) p

abbrev pub after_folder : Bool → FilePath → String → Entries → (Progress → Visit) → Visit → Visit
after_folder dry_run path name rest next ((sub, p), err u) = ((folder name sub rest, p), err u)
after_folder dry_run path name rest next ((sub, p), ok u) = prune dry_run path name sub rest next p

-- A directory: `visit` goes into it and begins with `read_dir`.
unfoldable pub visit_folder :
    Bool
    → FilePath
    → String
    → Entries
    → Entries
    → (Progress → Visit)
    → (Progress → Visit)
    → Progress
    → Visit
unfolding or_stop
visit_folder dry_run path name sub rest inside next p =
    after_folder dry_run path name rest next (or_stop sub inside p)

-- The loop of `visit` over the entries of `dir`. Reading an entry and its type may fail.
unfoldable pub visit_entries : Policy → Bool → FilePath → Bool → Entries → Progress → Visit
unfolding or_stop
visit_entries policy dry_run dir in_quarantine nil = or_stop nil (λ p. ((nil, p), ok tt))
visit_entries policy dry_run dir in_quarantine (file name modified rest) =
    let here = file name modified rest in
    let next = visit_entries policy dry_run dir in_quarantine rest in
    or_stop here
      (or_stop here (visit_file policy dry_run dir in_quarantine name modified rest next))
visit_entries policy dry_run dir in_quarantine (folder name sub rest) =
    let here = folder name sub rest in
    let next = visit_entries policy dry_run dir in_quarantine rest in
    let path = join_name dir name in
    let inside = visit_entries policy dry_run path (name == quarantine_dir) sub in
    or_stop here (or_stop here (visit_folder dry_run path name sub rest inside next))

-- `dir.file_name().map(|n| n == QUARANTINE_DIR).unwrap_or(false)`
abbrev pub is_quarantine : FilePath → Bool
is_quarantine dir = elim (file_name dir) [ some n ↦ n == quarantine_dir | none ↦ false ]

abbrev pub fresh_progress : List Bool → Progress
fresh_progress faults = record {
  faults = faults;
  report = record { deleted = []; pruned_dirs = [] };
}

abbrev pub reported : Visit → Entries × Result (Unit {0}) SweepReport
reported ((es, p), ok u) = (es, ok p.report)
reported ((es, p), err u) = (es, err u)

-- The sweep of the directory `root`, which holds `es`: what is left, and the report.
unfoldable pub sweep :
    Policy → Bool → FilePath → Entries → List Bool → Entries × Result (Unit {0}) SweepReport
unfolding or_stop
sweep policy dry_run root es faults =
    reported (
      or_stop es (visit_entries policy dry_run root (is_quarantine root) es)
        (fresh_progress faults))
