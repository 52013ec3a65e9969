-- ===== src/Retention/DryRun.antt =====
-- About `sweep` of src/retention.rs with `dry_run`.
use mathlib.Core.List.{append_assoc, append-nil}
use ftp_reolink.Base.{
  ℕ, String, Bool, true, false, Option, List, [], ◌∷◌, ◌++◌, ◌≡◌, refl, ap, ◌∙◌, ◌==◌, string_eq,
  Result, ok, err, if◌then◌else◌,
}
use ftp_reolink.Path.{FilePath, join_name}
use ftp_reolink.Append.{quarantine_dir}
use ftp_reolink.Retention.{
  Entries, nil, file, folder, Policy, SweepReport, Progress, Visit, fails, called, or_stop, stop_if,
  judged, visit_file, pruned, prune, is_nil, after_folder, visit_folder, visit_entries,
  is_quarantine, reported, sweep, report_deleted, report_pruned, fresh_progress,
}
use ftp_reolink.Retention.View.{is_expired, reported-entries}
use ftp_reolink.Retention.Exact.{path_if, gone, emptied, calm, Ends, sweep_exact}

abbrev Unchanged : Entries → (Progress → Visit) → Type 0
Unchanged es next = (p : Progress) → (next p).0.0 ≡ es

module _ (policy : Policy) where
  or_stop-Unchanged :
      (es : Entries) (next : Progress → Visit) → Unchanged es next → Unchanged es (or_stop es next)
  unfolding or_stop
  or_stop-Unchanged es next h p = go (fails p)
    where
      go : (b : Bool) → (stop_if b es next (called p)).0.0 ≡ es
      go true = refl
      go false = h (called p)

  judged-Unchanged :
      (older : Bool) (path : FilePath) (name : String) (modified : Option ℕ) (rest : Entries)
      (next : Progress → Visit)
      → Unchanged rest next
      → Unchanged (file name modified rest) (judged older true path name modified rest next)
  judged-Unchanged false path name modified rest next h p = ap (file name modified) (h p)
  judged-Unchanged true path name modified rest next h p =
      ap (file name modified) (h (report_deleted path p))

  pruned-Unchanged :
      (b : Bool) (path : FilePath) (name : String) (sub rest : Entries) (next : Progress → Visit)
      → Unchanged rest next
      → Unchanged (folder name sub rest) (pruned b true path name sub next)
  pruned-Unchanged false path name sub rest next h p = ap (folder name sub) (h p)
  pruned-Unchanged true path name sub rest next h p =
      ap (folder name sub) (h (report_pruned path p))

  after_folder_keeps :
      (path : FilePath) (name : String) (sub rest : Entries) (next : Progress → Visit) (v : Visit)
      → Unchanged rest next
      → v.0.0 ≡ sub
      → (after_folder true path name rest next v).0.0 ≡ folder name sub rest
  unfolding prune
  after_folder_keeps path name sub rest next ((sub', p), err u) h e = ap (λ s. folder name s rest) e
  after_folder_keeps path name sub rest next ((sub', p), ok u) h e =
      or_stop-Unchanged (folder name sub' rest) _
        (λ p.
          pruned-Unchanged (if fails p then false else is_nil sub') path name sub' rest next h
            (called p))
        p
      ∙ ap (λ s. folder name s rest) e

  visit_entries-Unchanged :
      (dir : FilePath) (q : Bool) (es : Entries) → Unchanged es (visit_entries policy true dir q es)
  unfolding visit_entries visit_file visit_folder
  visit_entries-Unchanged dir q nil = or_stop-Unchanged nil _ (λ p. refl)
  visit_entries-Unchanged dir q (file name modified rest) = or_stop-Unchanged _ _ (
      or_stop-Unchanged _ _ λ p.
        judged-Unchanged _ (join_name dir name) name modified rest _
          (visit_entries-Unchanged dir q rest) (called p))
  visit_entries-Unchanged dir q (folder name sub rest) = or_stop-Unchanged _ _ (
      or_stop-Unchanged _ _ λ p.
        after_folder_keeps (join_name dir name) name sub rest _ _
          (visit_entries-Unchanged dir q rest)
          (or_stop-Unchanged sub _
            (visit_entries-Unchanged (join_name dir name) (name == quarantine_dir) sub) p))

  -- The directories that were empty before.
  vacant : FilePath → Entries → List FilePath
  vacant dir nil = []
  vacant dir (file name modified rest) = vacant dir rest
  vacant dir (folder name sub rest) =
      vacant (join_name dir name) sub ++ path_if (is_nil sub) (join_name dir name) (vacant dir rest)

  judged_lem :
      (b : Bool) (path : FilePath) (name : String) (modified : Option ℕ) (rest : Entries)
      (next : Progress → Visit) (d u : List FilePath)
      → Ends (λ x y. next (calm x y)) rest d u
      → Ends
          (λ x y. judged b true path name modified rest next (calm x y))
          (file name modified rest)
          (path_if b path d)
          u
  judged_lem true path name modified rest next d u h x y = rw (h (x ++ (path ∷ [])) y, append_assoc)
  judged_lem false path name modified rest next d u h x y = rw (h x y)

  pruned_lem :
      (b : Bool) (path : FilePath) (name : String) (sub rest : Entries) (next : Progress → Visit)
      (d u : List FilePath)
      → Ends (λ x y. next (calm x y)) rest d u
      → Ends
          (λ x y. pruned b true path name sub next (calm x y))
          (folder name sub rest)
          d
          (path_if b path u)
  pruned_lem true path name sub rest next d u h x y = rw (h x (y ++ (path ∷ [])), append_assoc)
  pruned_lem false path name sub rest next d u h x y = rw (h x y)

  visit_entries_lem :
      (dir : FilePath) (q : Bool) (es : Entries)
      → Ends
          (λ x y. visit_entries policy true dir q es (calm x y))
          es
          (gone policy dir q es)
          (vacant dir es)
  unfolding visit_entries visit_file visit_folder prune or_stop gone vacant
  visit_entries_lem dir q nil x y = rw (append-nil x, append-nil y)
  visit_entries_lem dir q (file name modified rest) x y =
      judged_lem (is_expired policy q name modified) (join_name dir name) name modified rest _ _ _
        (visit_entries_lem dir q rest) x y
  visit_entries_lem dir q (folder name sub rest) x y =
      let path = join_name dir name in
      let inner = name == quarantine_dir in
      ap (after_folder true path name rest (visit_entries policy true dir q rest))
        (visit_entries_lem path inner sub x y)
      ∙ (pruned_lem (is_nil sub) path name sub rest _ _ _ (visit_entries_lem dir q rest)
            (x ++ gone policy path inner sub) (y ++ vacant path sub)
          ∙ rw (append_assoc, append_assoc))

-- A dry run changes nothing, under every script of faults; and where no call fails, it reports the
-- same files, in the same order, as the real run deletes.
pub sweep_dry_run :
    (policy : Policy) (root : FilePath) (es : Entries)
    → ((faults : List Bool) → (sweep policy true root es faults).0 ≡ es)
      × ((planned : SweepReport) × (done : SweepReport) × ((sweep policy true root es []).1
            ≡ ok planned)
          × ((sweep policy false root es []).1 ≡ ok done)
          × (planned.deleted ≡ done.deleted))
unfolding sweep
sweep_dry_run policy root es = (
  λ faults.
      reported-entries (
        or_stop es (visit_entries policy true root (is_quarantine root) es) (fresh_progress faults))
      ∙ or_stop-Unchanged policy es _ (visit_entries-Unchanged policy root (is_quarantine root) es)
          (fresh_progress faults),
  (
    record {
      deleted = gone policy root (is_quarantine root) es;
      pruned_dirs = vacant policy root es;
    },
    record {
      deleted = gone policy root (is_quarantine root) es;
      pruned_dirs = emptied policy root (is_quarantine root) es;
    },
    (unfold or_stop in
        ap (λ (v : Visit). (reported v).1)
          (visit_entries_lem policy root (is_quarantine root) es [] [])),
    ap (λ (r : Entries × Result (Unit {0}) SweepReport). r.1) (sweep_exact policy root es),
    refl,
  ),
)
