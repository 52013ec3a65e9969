-- ===== src/Limits/Examples.antt =====
-- The unit tests of src/limits.rs and src/presence.rs, and the theorems at concrete trackers.
use ftp_reolink.Base.{
  suc, ◌<◌, ◌≡◌, refl, String, true, none, some, List, [], ◌∷◌, arith, length, string_eq,
  string_dec,
}
use ftp_reolink.Limits.{
  SessionState, new, live, on_login, on_logout, reap, try_admit, at_capacity, logged_in, logged_out,
  Event, admit, presence, sweep, limit, run, push_session, drop_oldest, remove_if_empty,
  reap_sessions,
}
use ftp_reolink.Limits.Ledger.{NodupKeys}
use ftp_reolink.Limits.Invariant.{Inv}
use ftp_reolink.Limits.Roster.{times, empty, roster_run, roster_answers}
use ftp_reolink.Limits.Refines.{gate_answers, run-new-Refines}
use ftp_reolink.Limits.Caps.{IsWithin}
use ftp_reolink.Limits.History.{run-new-IsWithin, reap_logout_undercounts}

-- Account `cam` has sessions of times 0 and 290, account `eve` one of time 10.
abbrev busy : SessionState
busy = record {
  per_account = ("cam", 0 ∷ 290 ∷ []) ∷ ("eve", 10 ∷ []) ∷ [];
  global = 3;
  max_global = 3;
  max_per_account = some 2;
}

abbrev history : List Event
history =
    admit "cam" 0
    ∷ presence logged_in "cam"
    ∷ admit "cam" 5
    ∷ limit 1 none
    ∷ sweep 300 302
    ∷ presence logged_out "cam"
    ∷ []

busy_distinct : NodupKeys busy.per_account
unfolding string_dec
busy_distinct = (refl, (refl, tt))

busy-Inv : Inv busy
busy-Inv = record {
  counted = refl;
  in_u32 = omega arith;
  limit_in_u32 = omega arith;
  distinct = busy_distinct;
  trimmed = (refl, (refl, tt));
}

global_cap_blocks_when_reached :
    at_capacity "c" (on_login "b" 1 (on_login "a" 0 (new 2 none))) ≡ true
unfolding at_capacity on_login new push_session string_dec
global_cap_blocks_when_reached = refl

reap_frees_stale_leaked_sessions : (reap 0 7 (try_admit "a" 0 (new 100 (some 1))).0).1 ≡ 1
unfolding reap reap_sessions try_admit new push_session live string_dec
reap_frees_stale_leaked_sessions = refl

logout_of_a_ghost : on_logout "ghost" (new 5 (some 2)) ≡ new 5 (some 2)
unfolding on_logout new drop_oldest remove_if_empty
logout_of_a_ghost = refl

abbrev quiet_history : List Event
quiet_history = admit "cam" 0 ∷ admit "cam" 1 ∷ sweep 300 300 ∷ presence logged_out "cam" ∷ []

run-new-IsWithin_example : IsWithin (run quiet_history (new 1 (some 1)))
run-new-IsWithin_example = run-new-IsWithin 1 (some 1) quiet_history (omega arith) tt

live_eve : live "eve" busy.per_account ≡ 10 ∷ []
unfolding live string_dec
live_eve = refl

reaped_three : (reap 5 400 busy).1 ≡ 3
unfolding reap reap_sessions string_dec
reaped_three = refl

reap_logout_undercounts_example :
    suc (length (live "cam" (on_logout "cam" (reap 300 310 busy).0).per_account))
    < length (live "cam" busy.per_account)
unfolding live string_dec
reap_logout_undercounts_example =
    reap_logout_undercounts "cam" 300 310 busy busy-Inv (omega arith) (λ e. cc)

run-new-Refines_example :
    (gate_answers history (new 3 (some 2)) ≡ roster_answers history (empty 3 (some 2)))
    × ((run history (new 3 (some 2))).global
        ≡ length (roster_run history (empty 3 (some 2))).sessions)
    × ((w : String)
        → live w (run history (new 3 (some 2))).per_account
          ≡ times w (roster_run history (empty 3 (some 2))).sessions)
run-new-Refines_example = run-new-Refines 3 (some 2) history (omega arith) (omega arith)
