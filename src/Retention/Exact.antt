-- ===== src/Retention/Exact.antt =====
-- About `sweep` of src/retention.rs when no call fails: an independent description of what goes and
-- what stays.
use mathlib.Core.List.{append_assoc, append-nil}
use ftp_reolink.Base.{
  ℕ, String, Bool, true, false, Option, List, [], ◌∷◌, ◌++◌, ◌≡◌, ap, ◌∙◌, ◌==◌, string_eq, ok,
}
use ftp_reolink.Path.{FilePath, join_name}
use ftp_reolink.Append.{quarantine_dir}
use ftp_reolink.Retention.{
  Entries, nil, file, folder, Policy, Progress, Visit, or_stop, judged, visit_file, pruned, prune,
  is_nil, after_folder, visit_folder, visit_entries, is_quarantine, reported, sweep,
}
use ftp_reolink.Retention.View.{is_expired}

abbrev pub unless : {A : Type 0} → Bool → (A → A) → A → A
unless true f a = a
unless false f a = f a

-- What stays: the files that have not outlived their time, and the directories that still hold
-- something then.
unfoldable pub left : Policy → Bool → Entries → Entries
left policy q nil = nil
left policy q (file name modified rest) =
    unless (is_expired policy q name modified) (file name modified) (left policy q rest)
left policy q (folder name sub rest) =
    let sub' = left policy (name == quarantine_dir) sub in
    unless (is_nil sub') (folder name sub') (left policy q rest)

abbrev pub path_if : Bool → FilePath → List FilePath → List FilePath
path_if true path paths = path ∷ paths
path_if false path paths = paths

-- The files that go.
unfoldable pub gone : Policy → FilePath → Bool → Entries → List FilePath
gone policy dir q nil = []
gone policy dir q (file name modified rest) =
    path_if (is_expired policy q name modified) (join_name dir name) (gone policy dir q rest)
gone policy dir q (folder name sub rest) =
    gone policy (join_name dir name) (name == quarantine_dir) sub ++ gone policy dir q rest

-- The directories that go, the inner ones first.
unfoldable pub emptied : Policy → FilePath → Bool → Entries → List FilePath
emptied policy dir q nil = []
emptied policy dir q (file name modified rest) = emptied policy dir q rest
emptied policy dir q (folder name sub rest) =
    emptied policy (join_name dir name) (name == quarantine_dir) sub
    ++ path_if (is_nil (left policy (name == quarantine_dir) sub)) (join_name dir name)
        (emptied policy dir q rest)

-- No faults, and a report.
abbrev pub calm : List FilePath → List FilePath → Progress
calm d u = record { faults = []; report = record { deleted = d; pruned_dirs = u } }

abbrev pub Ends :
    (List FilePath → List FilePath → Visit) → Entries → List FilePath → List FilePath → Type 0
Ends v es d u = (x y : List FilePath) → v x y ≡ ((es, calm (x ++ d) (y ++ u)), ok tt)

module _ (policy : Policy) where
  visit_file_lem :
      (b : Bool) (path : FilePath) (name : String) (modified : Option ℕ) (rest es : Entries)
      (next : Progress → Visit) (d u : List FilePath)
      → Ends (λ x y. next (calm x y)) es d u
      → Ends
          (λ x y. judged b false path name modified rest next (calm x y))
          (unless b (file name modified) es)
          (path_if b path d)
          u
  unfolding or_stop
  visit_file_lem true path name modified rest es next d u h x y =
      h (x ++ (path ∷ [])) y ∙ rw append_assoc
  visit_file_lem false path name modified rest es next d u h x y = rw (h x y)

  pruned_lem :
      (b : Bool) (path : FilePath) (name : String) (sub es : Entries) (next : Progress → Visit)
      (d u : List FilePath)
      → Ends (λ x y. next (calm x y)) es d u
      → Ends
          (λ x y. pruned b false path name sub next (calm x y))
          (unless b (folder name sub) es)
          d
          (path_if b path u)
  pruned_lem true path name sub es next d u h x y = h x (y ++ (path ∷ [])) ∙ rw append_assoc
  pruned_lem false path name sub es next d u h x y = rw (h x y)

  visit_entries_lem :
      (dir : FilePath) (q : Bool) (es : Entries)
      → Ends
          (λ x y. visit_entries policy false dir q es (calm x y))
          (left policy q es)
          (gone policy dir q es)
          (emptied policy dir q es)
  unfolding visit_entries visit_file visit_folder prune or_stop left gone emptied
  visit_entries_lem dir q nil x y = rw (append-nil x, append-nil y)
  visit_entries_lem dir q (file name modified rest) x y =
      visit_file_lem (is_expired policy q name modified) (join_name dir name) name modified rest _ _
        _ _ (visit_entries_lem dir q rest) x y
  visit_entries_lem dir q (folder name sub rest) x y =
      let path = join_name dir name in
      let inner = name == quarantine_dir in
      ap (after_folder false path name rest (visit_entries policy false dir q rest))
        (visit_entries_lem path inner sub x y)
      ∙ (pruned_lem (is_nil (left policy inner sub)) path name (left policy inner sub) _ _ _ _
            (visit_entries_lem dir q rest) (x ++ gone policy path inner sub)
            (y ++ emptied policy path inner sub)
          ∙ rw (append_assoc, append_assoc))

-- When no call fails, a sweep leaves exactly the files that have not outlived their time and the
-- directories that still hold something then, and reports exactly the files that went, and the
-- directories that went, the inner ones first. The time of a file depends on where it stands: in a
-- quarantine directory, under a staging name, or neither.
pub sweep_exact :
    (policy : Policy) (root : FilePath) (es : Entries)
    → sweep policy false root es [] ≡ (
      left policy (is_quarantine root) es,
      ok (record {
        deleted = gone policy root (is_quarantine root) es;
        pruned_dirs = emptied policy root (is_quarantine root) es;
      }),
    )
unfolding sweep or_stop
sweep_exact policy root es =
    ap reported (visit_entries_lem policy root (is_quarantine root) es [] [])
