-- ===== src/Limits/Invariant.antt =====
-- About the counters of the tracker in src/limits.rs and its table.
use ftp_reolink.Base.{
  ℕ, ◌+◌, ◌-◌, ◌≤◌, ◌≡◌, refl, String, Option, List, [], ◌∷◌, arith, retain, ◌==◌, string_eq,
  if◌then◌else◌,
}
use ftp_reolink.Limits.{
  SessionState, new, live, fresh, u32_max, drop_first, on_logout, reap, try_admit, set_limits,
  logged_in, logged_out, receive_presence_event, Event, admit, presence, sweep, limit, step, run,
  is_empty,
}
use ftp_reolink.Limits.Ledger.{
  total, NodupKeys, Trimmed, total-push, push-NodupKeys, push-Trimmed, total-dropped,
  dropped-NodupKeys, dropped-Trimmed, total-swept, swept-NodupKeys, swept-Trimmed, live-dropped,
  live-swept, drop_oldest_removed,
}

pub record Inv (s : SessionState) : Type 0 where
  pub counted : s.global ≡ total s.per_account
  pub in_u32 : s.global ≤ u32_max
  pub limit_in_u32 : s.max_global ≤ u32_max
  pub distinct : NodupKeys s.per_account
  pub trimmed : Trimmed s.per_account

-- The limits that an event sets are `u32` values.
abbrev pub IsU32 : Event → Type 0
IsU32 (limit g p) = g ≤ u32_max
IsU32 (admit u now) = Unit
IsU32 (presence e u) = Unit
IsU32 (sweep ttl now) = Unit

abbrev pub AllU32 : List Event → Type 0
AllU32 [] = Unit
AllU32 (e ∷ es) = IsU32 e × AllU32 es

pub new-Inv : (g : ℕ) (p : Option ℕ) → g ≤ u32_max → Inv (new g p)
unfolding new
new-Inv g p h = record {
  counted = refl;
  in_u32 = omega arith;
  limit_in_u32 = h;
  distinct = tt;
  trimmed = tt;
}

pub try_admit-Inv : (u : String) (now : ℕ) (s : SessionState) → Inv s → Inv (try_admit u now s).0
unfolding try_admit
try_admit-Inv u now s v = ground (
  arith,
  total-push u now s.per_account,
  push-NodupKeys u now s.per_account v.distinct,
  push-Trimmed u now s.per_account v.trimmed,
)

pub on_logout-Inv : (u : String) (s : SessionState) → Inv s → Inv (on_logout u s)
unfolding on_logout
on_logout-Inv u s v = ground (
  arith,
  total-dropped u s.per_account,
  dropped-NodupKeys u s.per_account v.distinct,
  dropped-Trimmed u s.per_account v.trimmed,
)

pub reap-Inv : (ttl now : ℕ) (s : SessionState) → Inv s → Inv (reap ttl now s).0
unfolding reap
reap-Inv ttl now s v = ground (
  arith,
  total-swept ttl now s.per_account 0,
  swept-NodupKeys ttl now s.per_account 0 v.distinct,
  swept-Trimmed ttl now s.per_account 0,
)

pub step-Inv : (e : Event) (s : SessionState) → IsU32 e → Inv s → Inv (step e s)
unfolding step receive_presence_event set_limits
step-Inv (admit u now) s h v = try_admit-Inv u now s v
step-Inv (presence logged_in u) s h v = v
step-Inv (presence logged_out u) s h v = on_logout-Inv u s v
step-Inv (sweep ttl now) s h v = reap-Inv ttl now s v
step-Inv (limit g p) s h v = ground arith

run-Inv : (es : List Event) (s : SessionState) → AllU32 es → Inv s → Inv (run es s)
unfolding run
run-Inv [] s h v = v
run-Inv (e ∷ es) s h v = run-Inv es (step e s) h.1 (step-Inv e s h.0 v)

-- A logout takes the oldest session of its account and the count with it; of an account without a
-- session it changes neither. No other account changes. This needs the counts to agree.
pub on_logout_lem :
    (u : String) (s : SessionState)
    → Inv s
    → (((w : String)
          → live w (on_logout u s).per_account
            ≡ (if u == w then drop_first (live w s.per_account) else live w s.per_account))
        × ((on_logout u s).global
            ≡ (if is_empty (live u s.per_account) then s.global else s.global - 1)))
unfolding on_logout
on_logout_lem u s v = (
  λ w. live-dropped u w s.per_account v.distinct,
  ground (arith, drop_oldest_removed u s.per_account),
)

-- A sweep keeps exactly the sessions younger than the limit, in every account, and returns the
-- number that it took, which is what the global count falls by. This needs the counts to agree.
pub reap_lem :
    (ttl now : ℕ) (s : SessionState)
    → Inv s
    → let (t, reaped) = reap ttl now s in
      ((w : String) → live w t.per_account ≡ retain (fresh ttl now) (live w s.per_account))
      × (reaped + total t.per_account ≡ total s.per_account)
      × (t.global + reaped ≡ s.global)
unfolding reap
reap_lem ttl now s v = (
  λ w. live-swept ttl now w s.per_account 0 v.distinct,
  ground (arith, total-swept ttl now s.per_account 0),
  ground (arith, total-swept ttl now s.per_account 0),
)
