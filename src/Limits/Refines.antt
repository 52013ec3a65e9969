-- ===== src/Limits/Refines.antt =====
-- About the tracker of src/limits.rs: it does what the list of live sessions says.
use ftp_reolink.Base.{
  ℕ, ◌≤◌, ◌≡◌, refl, sym, ◌∙◌, String, Bool, Option, List, [], ◌∷◌, length, arith, string_eq,
}
use ftp_reolink.Limits.{
  Sessions, SessionState, new, live, u32_max, try_admit, on_logout, reap, set_limits,
  receive_presence_event, Event, admit, presence, sweep, limit, logged_in, logged_out, step, run,
}
use ftp_reolink.Limits.Ledger.{total, NodupKeys, live_absent, length-live-le, live-push}
use ftp_reolink.Limits.Invariant.{Inv, IsU32, AllU32, new-Inv, step-Inv, on_logout_lem, reap_lem}
use ftp_reolink.Limits.Roster.{
  Session, Roster, times, has_room, roster_step, empty, roster_run, roster_answers, times-append,
  times-remove_first, times-retain, without, length-without, times-without,
}

no_sessions : (l : List Session) → ((u : String) → [] ≡ times u l) → length l ≡ 0
no_sessions [] h = refl
no_sessions ((a, t) ∷ l) h = ground (arith, h a)

total_lem :
    (m : Sessions) (l : List Session)
    → NodupKeys m
    → ((u : String) → live u m ≡ times u l)
    → total m ≡ length l
unfolding live
total_lem [] l d h = sym (no_sessions l h)
total_lem ((a, v) ∷ m) l d h =
    ground (arith, total_lem m (without a l) d.1 rest, length-without a l, h a)
  where
    rest : (u : String) → live u m ≡ times u (without a l)
    rest u = ground (arith, h u, times-without u a l, live_absent a m d.0)

-- The tracker's table and the list of sessions agree on every account, and the caps are the same.
record Refines (s : SessionState) (q : Roster) : Type 0 where
  inv : Inv s
  global_cap : s.max_global ≡ q.max_global
  account_cap : s.max_per_account ≡ q.max_per_account
  agree : (u : String) → live u s.per_account ≡ times u q.sessions

counts : (s : SessionState) (q : Roster) → Refines s q → s.global ≡ length q.sessions
counts s q r = r.inv.counted ∙ total_lem s.per_account q.sessions r.inv.distinct r.agree

answers_alike :
    (u : String) (now : ℕ) (s : SessionState) (q : Roster)
    → Refines s q
    → (try_admit u now s).1 ≡ has_room u q
unfolding try_admit
answers_alike u now s q r =
    ground
      (arith, counts s q r, r.agree u, length-live-le u s.per_account, r.inv.counted, r.inv.in_u32)

step_agrees :
    (e : Event) (s : SessionState) (q : Roster)
    → Refines s q
    → (w : String) → live w (step e s).per_account ≡ times w (roster_step e q).sessions
unfolding step receive_presence_event set_limits
step_agrees (admit u now) s q r w =
    unfold try_admit in
    ground (
      arith,
      answers_alike u now s q r,
      live-push u now w s.per_account,
      times-append w u now q.sessions,
      r.agree w,
      r.agree u,
    )
step_agrees (presence logged_in u) s q r w = r.agree w
step_agrees (presence logged_out u) s q r w =
    (on_logout_lem u s r.inv).0 w ∙ ground (arith, times-remove_first w u q.sessions, r.agree w)
step_agrees (sweep ttl now) s q r w =
    (reap_lem ttl now s r.inv).0 w ∙ ground (arith, times-retain w ttl now q.sessions, r.agree w)
step_agrees (limit g p) s q r w = r.agree w

caps :
    (e : Event) (s : SessionState) (q : Roster)
    → Refines s q
    → ((step e s).max_global ≡ (roster_step e q).max_global)
      × ((step e s).max_per_account ≡ (roster_step e q).max_per_account)
unfolding step receive_presence_event set_limits try_admit on_logout reap
caps (admit u now) s q r = ground (arith, r.global_cap, r.account_cap)
caps (presence logged_in u) s q r = (r.global_cap, r.account_cap)
caps (presence logged_out u) s q r = (r.global_cap, r.account_cap)
caps (sweep ttl now) s q r = (r.global_cap, r.account_cap)
caps (limit g p) s q r = (refl, refl)

step-Refines :
    (e : Event) (s : SessionState) (q : Roster)
    → IsU32 e
    → Refines s q
    → Refines (step e s) (roster_step e q)
step-Refines e s q h r = record {
  inv = step-Inv e s h r.inv;
  global_cap = (caps e s q r).0;
  account_cap = (caps e s q r).1;
  agree = step_agrees e s q r;
}

-- What the gate answers to each login of a history.
abbrev pub gate_answers : List Event → SessionState → List Bool
gate_answers [] s = []
gate_answers (admit u now ∷ es) s = (try_admit u now s).1 ∷ gate_answers es (step (admit u now) s)
gate_answers (presence e u ∷ es) s = gate_answers es (step (presence e u) s)
gate_answers (sweep ttl now ∷ es) s = gate_answers es (step (sweep ttl now) s)
gate_answers (limit g p ∷ es) s = gate_answers es (step (limit g p) s)

gate_answers_lem :
    (es : List Event) (s : SessionState) (q : Roster)
    → AllU32 es
    → Refines s q
    → gate_answers es s ≡ roster_answers es q
gate_answers_lem [] s q h r = refl
gate_answers_lem (admit u now ∷ es) s q (h, hs) r =
    rw (answers_alike u now s q r, gate_answers_lem es _ _ hs (step-Refines (admit u now) s q h r))
      refl
gate_answers_lem (presence e u ∷ es) s q (h, hs) r =
    gate_answers_lem es _ _ hs (step-Refines (presence e u) s q h r)
gate_answers_lem (sweep ttl now ∷ es) s q (h, hs) r =
    gate_answers_lem es _ _ hs (step-Refines (sweep ttl now) s q h r)
gate_answers_lem (limit g p ∷ es) s q (h, hs) r =
    gate_answers_lem es _ _ hs (step-Refines (limit g p) s q h r)

run-Refines :
    (es : List Event) (s : SessionState) (q : Roster)
    → AllU32 es
    → Refines s q
    → Refines (run es s) (roster_run es q)
unfolding run
run-Refines [] s q h r = r
run-Refines (e ∷ es) s q (h, hs) r =
    run-Refines es (step e s) (roster_step e q) hs (step-Refines e s q h r)

new-Refines : (g : ℕ) (p : Option ℕ) → g ≤ u32_max → Refines (new g p) (empty g p)
unfolding new live
new-Refines g p h = record {
  inv = new-Inv g p h;
  global_cap = refl;
  account_cap = refl;
  agree = λ u. refl;
}

-- Over any history of admissions, presence events, sweeps and changed limits (all limits `u32`
-- values), a new tracker does what one list of the live sessions says, in the order of their logins:
-- a login is admitted exactly when the list is shorter than the global cap and the account has fewer
-- sessions on it than its own cap, and then goes to its end; a logout takes the account's first
-- session off it; a sweep takes off all that are as old as its limit. The gate gives the same answers,
-- and at the end the global count is the length of the list and every account's sessions are its own
-- on the list, in its order.
pub run-new-Refines :
    (g : ℕ) (p : Option ℕ) (es : List Event)
    → g ≤ u32_max
    → AllU32 es
    → (gate_answers es (new g p) ≡ roster_answers es (empty g p))
      × ((run es (new g p)).global ≡ length (roster_run es (empty g p)).sessions)
      × ((w : String)
          → live w (run es (new g p)).per_account ≡ times w (roster_run es (empty g p)).sessions)
run-new-Refines g p es h hs = (
  gate_answers_lem es (new g p) (empty g p) hs (new-Refines g p h),
  counts _ _ (run-Refines es (new g p) (empty g p) hs (new-Refines g p h)),
  (run-Refines es (new g p) (empty g p) hs (new-Refines g p h)).agree,
)
