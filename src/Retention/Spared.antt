-- ===== src/Retention/Spared.antt =====
-- About `sweep` of src/retention.rs: the files that no sweep touches.
use ftp_reolink.Base.{
  ℕ, Bool, Option, List, [], ◌∷◌, ◌++◌, ◌≡◌, refl, ◌==◌, string_eq, if◌then◌else◌,
}
use ftp_reolink.Path.{FilePath, join_name}
use ftp_reolink.Append.{quarantine_dir}
use ftp_reolink.Retention.View.{is_expired, View, sweep-of}
use ftp_reolink.Retention.{Entries, nil, file, folder, Policy, is_quarantine, sweep}

-- The files that have not outlived theirs, with their paths, in the order of the directories.
unfoldable pub spared : Policy → FilePath → Bool → Entries → List (FilePath × Option ℕ)
spared policy dir in_quarantine nil = []
spared policy dir in_quarantine (file name modified rest) =
    let more = spared policy dir in_quarantine rest in
    if is_expired policy in_quarantine name modified
    then more
    else (join_name dir name, modified) ∷ more
spared policy dir in_quarantine (folder name sub rest) =
    spared policy (join_name dir name) (name == quarantine_dir) sub
    ++ spared policy dir in_quarantine rest

unfoldable spared_view : (policy : Policy) → View (List (FilePath × Option ℕ)) policy
unfolding spared
spared_view policy = record {
  of = spared policy;
  file_cong = λ dir q name modified e. rw e refl;
  folder_cong = λ dir q name inside e. rw (inside, e) refl;
  expired = λ dir q name modified rest e. rw e refl;
  empty = λ dir q name rest. refl;
}

-- No sweep touches a file that has not outlived its time: under every script of faults, and whether
-- or not it ends in an error, what is left holds the same such files as before, at the same paths
-- and in the same order. A file whose age cannot be told counts as one of these.
pub sweep_spares :
    (policy : Policy) (dry_run : Bool) (root : FilePath) (es : Entries) (faults : List Bool)
    → spared policy root (is_quarantine root) (sweep policy dry_run root es faults).0
      ≡ spared policy root (is_quarantine root) es
unfolding spared spared_view
sweep_spares policy dry_run root es faults =
    sweep-of policy (spared_view policy) dry_run root es faults
