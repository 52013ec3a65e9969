-- ===== src/Server/Privileges.antt =====
-- src/server.rs: `resolve_user` and `drop_privileges`. The calls of the system are parameters: the
-- user database, and `setgid` and `setuid` on the ids of the process, `none` where they fail.
use ftp_reolink.Base.{
  ℕ, ◌≡◌, String, Option, none, some, Result, ok, err, Option-cases, inl, inr, arith,
}

pub record UserIds : Type 0 where
  pub uid : ℕ
  pub gid : ℕ

pub data DropError : Type 0 where
  unknown_user lookup_failed : String → DropError
  setgid_failed setuid_failed : ℕ → DropError

-- What `User::from_name` answers; `none` is an error of the system.
abbrev pub UserDatabase : Type 0
UserDatabase = String → Option (Option UserIds)

unfoldable pub resolve_user : UserDatabase → String → Result DropError UserIds
resolve_user from_name name = elim (from_name name) [
  | some (some ids) ↦ ok ids
  | some none ↦ err (unknown_user name)
  | none ↦ err (lookup_failed name)
]

-- The group first: after `setuid` the process may not change it any more.
module _ (setgid setuid : ℕ → UserIds → Option UserIds) where
  abbrev pub change_user : UserIds → UserIds → UserIds × Result DropError (Unit {0})
  change_user ids process = elim (setgid ids.gid process) [
    | none ↦ (process, err (setgid_failed ids.gid))
    | some grouped ↦ elim (setuid ids.uid grouped) [
      | none ↦ (grouped, err (setuid_failed ids.uid))
      | some dropped ↦ (dropped, ok tt)
    ]
  ]

  unfoldable pub drop_privileges :
      UserDatabase → String → UserIds → UserIds × Result DropError (Unit {0})
  unfolding resolve_user
  drop_privileges from_name name process = elim (resolve_user from_name name) [
    | err e ↦ (process, err e)
    | ok ids ↦ change_user ids process
  ]

-- If `setgid` sets the group and leaves the user, and `setuid` sets the user and leaves the group,
-- then after a drop that succeeded the process runs with exactly the ids that the database has for
-- the name.
pub drop_privileges_lem :
    (setgid setuid : ℕ → UserIds → Option UserIds) (from_name : UserDatabase) (name : String)
    (process : UserIds)
    → ((g : ℕ) (p q : UserIds) → setgid g p ≡ some q → (q.gid ≡ g) × (q.uid ≡ p.uid))
    → ((u : ℕ) (p q : UserIds) → setuid u p ≡ some q → (q.uid ≡ u) × (q.gid ≡ p.gid))
    → (drop_privileges setgid setuid from_name name process).1 ≡ ok tt
    → from_name name ≡ some (some (drop_privileges setgid setuid from_name name process).0)
unfolding drop_privileges resolve_user
drop_privileges_lem setgid setuid from_name name process sets_group sets_user h =
    elim (Option-cases (from_name name)) [
      | inl e ↦ absurd (ground arith)
      | inr (none, e) ↦ absurd (ground arith)
      | inr (some ids, e) ↦ elim (Option-cases (setgid ids.gid process)) [
        | inl f ↦ absurd (ground arith)
        | inr (grouped, f) ↦ elim (Option-cases (setuid ids.uid grouped)) [
          | inl k ↦ absurd (ground arith)
          | inr (dropped, k) ↦
              let g = sets_group ids.gid process grouped f in
              let u = sets_user ids.uid grouped dropped k in ground (arith, g.0, g.1, u.0, u.1)
        ]
      ]
    ]
