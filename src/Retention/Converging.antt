-- ===== src/Retention/Converging.antt =====
-- About `sweep` of src/retention.rs: one sweep after another.
use ftp_reolink.Base.{
  ℕ, ◌≤◌, String, Option, none, some, true, arith, nat_eq, Bool, false, List, [], ◌≡◌, refl, ◌==◌,
  string_eq, ok, inl, inr, Bool-cases,
}
use ftp_reolink.Path.{FilePath, join_name}
use ftp_reolink.Append.{quarantine_dir}
use ftp_reolink.Retention.{
  Entries, nil, file, folder, Policy, older_than, ttl_of, is_nil, is_quarantine, sweep,
}
use ftp_reolink.Retention.View.{is_expired, View, sweep-of}
use ftp_reolink.Retention.Exact.{left, gone, emptied, sweep_exact}

-- The same settings at another time.
abbrev pub at_time : Policy → ℕ → Policy
at_time policy now = record policy { now = now }

-- A file that has outlived its time has outlived it ever after.
older_than-later :
    (modified : Option ℕ) (ttl now now' : ℕ)
    → now ≤ now'
    → older_than modified ttl now ≡ true
    → older_than modified ttl now' ≡ true
unfolding older_than
older_than-later none ttl now now' le e = cc
older_than-later (some m) ttl now now' le e = ground arith

module _ (policy : Policy) (now : ℕ) (le : policy.now ≤ now) where
  is_expired-later :
      (q : Bool) (name : String) (modified : Option ℕ)
      → is_expired policy q name modified ≡ true
      → is_expired (at_time policy now) q name modified ≡ true
  unfolding ttl_of
  is_expired-later q name modified e =
      older_than-later modified (ttl_of policy q name) policy.now now le e

  -- What stays in the end, at the later time, for the sweep at the earlier one.
  unfoldable left_view : View Entries policy
  unfolding left
  left_view = record {
    of = λ dir q es. left (at_time policy now) q es;
    file_cong = λ dir q name modified e. rw e refl;
    folder_cong = λ dir q name inside e. rw (inside, e) refl;
    expired = λ dir q name modified rest e. rw (is_expired-later q name modified e) refl;
    empty = λ dir q name rest. refl;
  }

module _ (policy : Policy) where
  left-left : (q : Bool) (es : Entries) → left policy q (left policy q es) ≡ left policy q es
  unfolding left
  left-left q nil = refl
  left-left q (file name modified rest) = elim (Bool-cases (is_expired policy q name modified)) [
    | inl e ↦ rw e (left-left q rest)
    | inr e ↦ rw (e, e, left-left q rest) refl
  ]
  left-left q (folder name sub rest) =
      elim (Bool-cases (is_nil (left policy (name == quarantine_dir) sub))) [
        | inl e ↦ rw e (left-left q rest)
        | inr e ↦ rw (e, left-left (name == quarantine_dir) sub, e, left-left q rest) refl
      ]

  gone-left : (dir : FilePath) (q : Bool) (es : Entries) → gone policy dir q (left policy q es) ≡ []
  unfolding left gone
  gone-left dir q nil = refl
  gone-left dir q (file name modified rest) =
      elim (Bool-cases (is_expired policy q name modified)) [
        | inl e ↦ rw e (gone-left dir q rest)
        | inr e ↦ rw (e, e) (gone-left dir q rest)
      ]
  gone-left dir q (folder name sub rest) =
      elim (Bool-cases (is_nil (left policy (name == quarantine_dir) sub))) [
        | inl e ↦ rw e (gone-left dir q rest)
        | inr e ↦
            rw (e, gone-left (join_name dir name) (name == quarantine_dir) sub)
              (gone-left dir q rest)
      ]

  emptied-left :
      (dir : FilePath) (q : Bool) (es : Entries) → emptied policy dir q (left policy q es) ≡ []
  unfolding left emptied
  emptied-left dir q nil = refl
  emptied-left dir q (file name modified rest) =
      elim (Bool-cases (is_expired policy q name modified)) [
        | inl e ↦ rw e (emptied-left dir q rest)
        | inr e ↦ rw e (emptied-left dir q rest)
      ]
  emptied-left dir q (folder name sub rest) =
      elim (Bool-cases (is_nil (left policy (name == quarantine_dir) sub))) [
        | inl e ↦ rw e (emptied-left dir q rest)
        | inr e ↦
            rw
              (
                e,
                emptied-left (join_name dir name) (name == quarantine_dir) sub,
                left-left (name == quarantine_dir) sub,
                e,
              )
              (emptied-left dir q rest)
      ]

-- Let nothing else touch the archive. However far a sweep came, dry or not and whatever calls failed,
-- one with no failed call at the same or any later time leaves what it would have left at that time
-- had there been no first. And one right after it, at the same time by the clock and with no failed
-- call, finds nothing: it changes nothing and reports nothing.
pub sweep-sweep :
    (policy : Policy) (now : ℕ) (dry_run : Bool) (root : FilePath) (es : Entries)
    (faults : List Bool)
    → policy.now ≤ now
    → let later = sweep (at_time policy now) false root in
      ((later (sweep policy dry_run root es faults).0 []).0 ≡ (later es []).0)
      × (later (later es []).0 []
          ≡ ((later es []).0, ok (record { deleted = []; pruned_dirs = [] })))
unfolding left left_view
sweep-sweep policy now dry_run root es faults le =
    let q = is_quarantine root in
    let later = at_time policy now in
    (
      rw (sweep_exact later root (sweep policy dry_run root es faults).0, sweep_exact later root es)
          (sweep-of policy (left_view policy now le) dry_run root es faults),
      rw
          (
            sweep_exact later root es,
            sweep_exact later root (left later q es),
            left-left later q es,
            gone-left later root q es,
            emptied-left later root q es,
          )
          refl,
    )
