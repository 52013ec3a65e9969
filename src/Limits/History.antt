-- ===== src/Limits/History.antt =====
-- About the caps of src/limits.rs over histories, and the reaper.
use ftp_reolink.Base.{
  ℕ, suc, ◌-◌, ◌≤◌, ◌<◌, ◌≡◌, ◌≢◌, refl, String, true, Option, none, some, List, [], ◌∷◌, arith,
  length, length-retain-le, retain, string_eq, All,
}
use ftp_reolink.Limits.{
  SessionState, new, live, fresh, u32_max, on_logout, reap, try_admit, logged_in, logged_out,
  receive_presence_event, Event, admit, presence, sweep, limit, step, run,
}
use ftp_reolink.Limits.Invariant.{Inv, step-Inv, on_logout_lem, reap_lem, reap-Inv, new-Inv}
use ftp_reolink.Limits.Caps.{
  WithinCap-mono, IsWithin, KeepsLimits, try_admit-IsWithin, try_admit_iff, length-drop_first-le,
  HasRoom,
}

logout-IsWithin : (u : String) (s : SessionState) → Inv s → IsWithin s → IsWithin (on_logout u s)
logout-IsWithin u s v h = record {
  globally = unfold on_logout in ground arith;
  each = λ w.
      unfold on_logout in
      (WithinCap-mono s.max_per_account
        (ground (arith, (on_logout_lem u s v).0 w, length-drop_first-le (live w s.per_account)))
        (h.each w));
}

reap-IsWithin : (ttl now : ℕ) (s : SessionState) → Inv s → IsWithin s → IsWithin (reap ttl now s).0
reap-IsWithin ttl now s v h = record {
  globally = unfold reap in ground arith;
  each = λ w.
      unfold reap in
      (WithinCap-mono s.max_per_account
        (ground (
          arith,
          (reap_lem ttl now s v).0 w,
          length-retain-le (fresh ttl now) (live w s.per_account),
        ))
        (h.each w));
}

run-IsWithin :
    (es : List Event) (s : SessionState) → KeepsLimits es → Inv s → IsWithin s → IsWithin (run es s)
unfolding run step receive_presence_event
run-IsWithin [] s k v h = h
run-IsWithin (limit g p ∷ es) s k v h = absurd k
run-IsWithin (admit u now ∷ es) s k v h =
    run-IsWithin es _ k (step-Inv (admit u now) s tt v) (try_admit-IsWithin u now s v h)
run-IsWithin (presence logged_in u ∷ es) s k v h = run-IsWithin es s k v h
run-IsWithin (presence logged_out u ∷ es) s k v h =
    run-IsWithin es _ k (step-Inv (presence logged_out u) s tt v) (logout-IsWithin u s v h)
run-IsWithin (sweep ttl now ∷ es) s k v h =
    run-IsWithin es _ k (step-Inv (sweep ttl now) s tt v) (reap-IsWithin ttl now s v h)

new-IsWithin : (g : ℕ) (p : Option ℕ) → IsWithin (new g p)
unfolding new live
new-IsWithin g none = record { globally = omega arith; each = λ w. tt }
new-IsWithin g (some m) = record { globally = omega arith; each = λ w. omega arith }

-- Over any history that sets no new limits, from a new tracker, the sessions counted never exceed
-- the global cap, nor those of any one account the cap per account.
pub run-new-IsWithin :
    (g : ℕ) (p : Option ℕ) (es : List Event)
    → g ≤ u32_max
    → KeepsLimits es
    → IsWithin (run es (new g p))
run-new-IsWithin g p es h k = run-IsWithin es (new g p) k (new-Inv g p h) (new-IsWithin g p)

retain_stale :
    (ttl now : ℕ) (v : List ℕ) → All (λ t. ttl ≤ now - t) v → retain (fresh ttl now) v ≡ []
retain_stale ttl now [] h = refl
retain_stale ttl now (t ∷ v) h = ground (arith, retain_stale ttl now v h.1)

-- The caps cannot wedge shut on leaked slots: when every session of the account is as old as the
-- limit of the sweep, at least one is reclaimed and the account's cap is not 0, then after the
-- sweep a new login of that account is admitted, provided the global count was within its cap.
pub reap_reopens :
    (u : String) (ttl now later : ℕ) (s : SessionState)
    → Inv s
    → s.global ≤ s.max_global
    → HasRoom s.max_per_account 0
    → All (λ t. ttl ≤ now - t) (live u s.per_account)
    → 0 < (reap ttl now s).1
    → (try_admit u later (reap ttl now s).0).1 ≡ true
reap_reopens u ttl now later s v g room stale some_reaped =
    (try_admit_iff u later (reap ttl now s).0 (reap-Inv ttl now s v)).1
      (below, unfold reap in (rooms s.max_per_account room))
  where
    below : (reap ttl now s).0.global < (reap ttl now s).0.max_global
    below =
        let limits : (reap ttl now s).0.max_global ≡ s.max_global = unfold reap in refl in
        omega (arith, (reap_lem ttl now s v).2, limits)

    empty : live u (reap ttl now s).0.per_account ≡ []
    empty =
        ground
          (arith, (reap_lem ttl now s v).0 u, retain_stale ttl now (live u s.per_account) stale)

    rooms :
        (p : Option ℕ) → HasRoom p 0 → HasRoom p (length (live u (reap ttl now s).0.per_account))
    rooms none h = tt
    rooms (some m) h = ground (arith, empty)

-- A session that was reclaimed while its client was still connected is not harmless: its logout
-- then takes the slot of a younger session of the same account, so the tracker counts fewer
-- sessions of the account than are connected. It happens whenever the account has a stale session
-- and a fresh one at the sweep.
pub reap_logout_undercounts :
    (u : String) (ttl now : ℕ) (s : SessionState)
    → Inv s
    → length (retain (fresh ttl now) (live u s.per_account)) < length (live u s.per_account)
    → retain (fresh ttl now) (live u s.per_account) ≢ []
    → suc (length (live u (on_logout u (reap ttl now s).0).per_account))
      < length (live u s.per_account)
reap_logout_undercounts u ttl now s v stale younger = ground (
  arith,
  (on_logout_lem u (reap ttl now s).0 (reap-Inv ttl now s v)).0 u,
  (reap_lem ttl now s v).0 u,
)
