-- ===== src/Retention/View.antt =====
-- About `sweep` of src/retention.rs: what cannot tell a directory before a sweep from one after it.
use ftp_reolink.Base.{
  ℕ, String, Bool, true, false, Option, none, List, ◌≡◌, refl, sym, ap, ◌∙◌, ◌==◌, string_eq, ok,
  err, if◌then◌else◌,
}
use ftp_reolink.Path.{FilePath, join_name}
use ftp_reolink.Append.{quarantine_dir}
use ftp_reolink.Retention.{
  Entries, nil, file, folder, Policy, older_than, ttl_of, Progress, Visit, fails, called, or_stop,
  stop_if, report_deleted, report_pruned, keep_file, keep_folder, fresh_progress, judged,
  visit_file, pruned, prune, is_nil, after_folder, visit_folder, visit_entries, is_quarantine,
  reported, sweep,
}

-- The file has outlived its time: its metadata says so.
abbrev pub is_expired : Policy → Bool → String → Option ℕ → Bool
is_expired policy in_quarantine name modified =
    older_than modified (ttl_of policy in_quarantine name) policy.now

-- What a file that has outlived its time, and a directory that holds nothing, add nothing to.
pub record View (A : Type 0) (policy : Policy) : Type 0 where
  pub of : FilePath → Bool → Entries → A
  pub file_cong :
      (dir : FilePath) (q : Bool) (name : String) (modified : Option ℕ) {rest rest' : Entries}
      → of dir q rest ≡ of dir q rest'
      → of dir q (file name modified rest) ≡ of dir q (file name modified rest')
  pub folder_cong :
      (dir : FilePath) (q : Bool) (name : String) {sub sub' rest rest' : Entries}
      → of (join_name dir name) (name == quarantine_dir) sub
        ≡ of (join_name dir name) (name == quarantine_dir) sub'
      → of dir q rest ≡ of dir q rest'
      → of dir q (folder name sub rest) ≡ of dir q (folder name sub' rest')
  pub expired :
      (dir : FilePath) (q : Bool) (name : String) (modified : Option ℕ) (rest : Entries)
      → is_expired policy q name modified ≡ true
      → of dir q (file name modified rest) ≡ of dir q rest
  pub empty :
      (dir : FilePath) (q : Bool) (name : String) (rest : Entries)
      → of dir q (folder name nil rest) ≡ of dir q rest

module _ {A : Type 0} (policy : Policy) (view : View A policy) (dry_run : Bool) where
  -- `next` leaves the view of `es` as it is.
  abbrev Keeps : FilePath → Bool → Entries → (Progress → Visit) → Type 0
  Keeps dir q es next = (p : Progress) → view.of dir q (next p).0.0 ≡ view.of dir q es

  or_stop-Keeps :
      (dir : FilePath) (q : Bool) (es : Entries) (next : Progress → Visit)
      → Keeps dir q es next
      → Keeps dir q es (or_stop es next)
  unfolding or_stop
  or_stop-Keeps dir q es next h p = go (fails p)
    where
      go : (b : Bool) → view.of dir q (stop_if b es next (called p)).0.0 ≡ view.of dir q es
      go true = refl
      go false = h (called p)

  keep_file-Keeps :
      (dir : FilePath) (q : Bool) (name : String) (modified : Option ℕ) (rest : Entries)
      (next : Progress → Visit)
      → Keeps dir q rest next
      → Keeps dir q (file name modified rest) (keep_file name modified next)
  keep_file-Keeps dir q name modified rest next h p = view.file_cong dir q name modified (h p)

  judged-Keeps :
      (older dry : Bool) (dir : FilePath) (q : Bool) (name : String) (modified : Option ℕ)
      (rest : Entries) (next : Progress → Visit)
      → (older ≡ true → is_expired policy q name modified ≡ true)
      → Keeps dir q rest next
      → Keeps dir q
          (file name modified rest)
          (judged older dry (join_name dir name) name modified rest next)
  judged-Keeps false dry dir q name modified rest next e h p =
      keep_file-Keeps dir q name modified rest next h p
  judged-Keeps true true dir q name modified rest next e h p =
      keep_file-Keeps dir q name modified rest next h (report_deleted (join_name dir name) p)
  judged-Keeps true false dir q name modified rest next e h p =
      or_stop-Keeps dir q (file name modified rest) next
        (λ p. h p ∙ sym (view.expired dir q name modified rest (e refl)))
        (report_deleted (join_name dir name) p)

  -- A file whose metadata cannot be read is taken for a young one.
  older_seen :
      (b : Bool) (modified : Option ℕ) (ttl now : ℕ)
      → older_than (if b then none else modified) ttl now ≡ true
      → older_than modified ttl now ≡ true
  unfolding older_than
  older_seen true modified ttl now e = cc
  older_seen false modified ttl now e = e

  visit_file-Keeps :
      (dir : FilePath) (q : Bool) (name : String) (modified : Option ℕ) (rest : Entries)
      (next : Progress → Visit)
      → Keeps dir q rest next
      → Keeps dir q
          (file name modified rest)
          (visit_file policy dry_run dir q name modified rest next)
  unfolding visit_file
  visit_file-Keeps dir q name modified rest next h p =
      judged-Keeps _ dry_run dir q name modified rest next
        (older_seen (fails p) modified (ttl_of policy q name) policy.now) h (called p)

  keep_folder-Keeps :
      (dir : FilePath) (q : Bool) (name : String) (sub rest : Entries) (next : Progress → Visit)
      → Keeps dir q rest next
      → Keeps dir q (folder name sub rest) (keep_folder name sub next)
  keep_folder-Keeps dir q name sub rest next h p = view.folder_cong dir q name refl (h p)

  pruned-Keeps :
      (b dry : Bool) (dir : FilePath) (q : Bool) (name : String) (sub rest : Entries)
      (next : Progress → Visit)
      → (b ≡ true → is_nil sub ≡ true)
      → Keeps dir q rest next
      → Keeps dir q (folder name sub rest) (pruned b dry (join_name dir name) name sub next)
  pruned-Keeps false dry dir q name sub rest next e h p =
      keep_folder-Keeps dir q name sub rest next h p
  pruned-Keeps true true dir q name sub rest next e h p =
      keep_folder-Keeps dir q name sub rest next h (report_pruned (join_name dir name) p)
  pruned-Keeps true false dir q name sub rest next e h p =
      removed (fails (report_pruned (join_name dir name) p)) sub (e refl)
    where
      removed :
          (b : Bool) (sub : Entries)
          → is_nil sub ≡ true
          → view.of dir q
              (let p' = report_pruned (join_name dir name) p in
                if b then keep_folder name sub next (called p') else next (called p')).0.0
            ≡ view.of dir q (folder name sub rest)
      removed true sub e =
          keep_folder-Keeps dir q name sub rest next h
            (called (report_pruned (join_name dir name) p))
      removed false nil e =
          h (called (report_pruned (join_name dir name) p)) ∙ sym (view.empty dir q name rest)
      removed false (file n m es) e = cc
      removed false (folder n s es) e = cc

  prune-Keeps :
      (dir : FilePath) (q : Bool) (name : String) (sub rest : Entries) (next : Progress → Visit)
      → Keeps dir q rest next
      → Keeps dir q (folder name sub rest) (prune dry_run (join_name dir name) name sub rest next)
  unfolding prune
  prune-Keeps dir q name sub rest next h =
      or_stop-Keeps dir q (folder name sub rest) _
        (λ p. pruned-Keeps _ dry_run dir q name sub rest next (seen (fails p)) h (called p))
    where
      seen : (b : Bool) → (if b then false else is_nil sub) ≡ true → is_nil sub ≡ true
      seen true e = cc
      seen false e = e

  after_folder-Keeps :
      (dir : FilePath) (q : Bool) (name : String) (sub rest : Entries) (next : Progress → Visit)
      (v : Visit)
      → Keeps dir q rest next
      → view.of (join_name dir name) (name == quarantine_dir) v.0.0
        ≡ view.of (join_name dir name) (name == quarantine_dir) sub
      → view.of dir q (after_folder dry_run (join_name dir name) name rest next v).0.0
        ≡ view.of dir q (folder name sub rest)
  after_folder-Keeps dir q name sub rest next ((sub', p), err u) h e =
      view.folder_cong dir q name e refl
  after_folder-Keeps dir q name sub rest next ((sub', p), ok u) h e =
      prune-Keeps dir q name sub' rest next h p ∙ view.folder_cong dir q name e refl

  visit_entries-Keeps :
      (dir : FilePath) (q : Bool) (es : Entries)
      → Keeps dir q es (visit_entries policy dry_run dir q es)
  unfolding visit_entries visit_folder
  visit_entries-Keeps dir q nil = or_stop-Keeps dir q nil _ (λ p. refl)
  visit_entries-Keeps dir q (file name modified rest) = or_stop-Keeps dir q _ _ (
      or_stop-Keeps dir q _ _
        (visit_file-Keeps dir q name modified rest _ (visit_entries-Keeps dir q rest)))
  visit_entries-Keeps dir q (folder name sub rest) = or_stop-Keeps dir q _ _ (
      or_stop-Keeps dir q _ _ λ p.
        after_folder-Keeps dir q name sub rest _ _ (visit_entries-Keeps dir q rest) (
          or_stop-Keeps (join_name dir name) (name == quarantine_dir) sub _
            (visit_entries-Keeps (join_name dir name) (name == quarantine_dir) sub) p))

pub reported-entries : (v : Visit) → (reported v).0 ≡ v.0.0
reported-entries ((es, p), ok u) = refl
reported-entries ((es, p), err u) = refl

-- Under every script of faults, what a sweep leaves looks the same.
pub sweep-of :
    {A : Type 0} (policy : Policy) (view : View A policy) (dry_run : Bool) (root : FilePath)
    (es : Entries) (faults : List Bool)
    → view.of root (is_quarantine root) (sweep policy dry_run root es faults).0
      ≡ view.of root (is_quarantine root) es
unfolding sweep
sweep-of policy view dry_run root es faults =
    ap (view.of root (is_quarantine root)) (
      reported-entries (
        or_stop es (visit_entries policy dry_run root (is_quarantine root) es)
          (fresh_progress faults)))
    ∙ or_stop-Keeps policy view dry_run root (is_quarantine root) es _
        (visit_entries-Keeps policy view dry_run root (is_quarantine root) es)
        (fresh_progress faults)
