-- ===== src/Limits.antt =====
-- src/limits.rs and src/presence.rs: the tracker of live sessions. A method locks the mutex for its
-- whole body, so it is one function on the state; `Instant::now()` is an argument.
pub mod Ledger
pub mod Invariant
pub mod Caps
pub mod History
pub mod Roster
pub mod Refines
mod Examples
use ftp_reolink.Base.{
  ℕ, ◌+◌, ◌-◌, ◌%◌, ◌^◌, min, String, Bool, true, false, Option, none, some, List, [], ◌∷◌, ◌++◌,
  ltb, leb, length, retain, ◌==◌, string_eq, if◌then◌else◌,
}

abbrev pub u32_max : ℕ
u32_max = 4294967295

-- `n as u32`
abbrev pub as_u32 : ℕ → ℕ
as_u32 n = n % 2 ^ 32

-- `u32::saturating_add`
abbrev pub saturating_add : ℕ → ℕ → ℕ
saturating_add a b = min (a + b) u32_max

-- `HashMap<String, Vec<Instant>>`: the order of the entries is never read.
abbrev pub Sessions : Type 0
Sessions = List (String × List ℕ)

pub record SessionState : Type 0 where
  pub per_account : Sessions
  pub global : ℕ
  pub max_global : ℕ
  pub max_per_account : Option ℕ

unfoldable pub new : ℕ → Option ℕ → SessionState
new max_global max_per_account = record {
  per_account = [];
  global = 0;
  max_global = max_global;
  max_per_account = max_per_account;
}

-- The sessions of an account: `get(username).map_or([], ..)`.
unfoldable pub live : String → Sessions → List ℕ
live u [] = []
live u ((a, v) ∷ m) = if a == u then v else live u m

-- `entry(username).or_default().push(now)`
unfoldable pub push_session : String → ℕ → Sessions → Sessions
push_session u now [] = (u, now ∷ []) ∷ []
push_session u now ((a, v) ∷ m) =
    if a == u then (a, v ++ (now ∷ [])) ∷ m else (a, v) ∷ push_session u now m

abbrev pub drop_first : List ℕ → List ℕ
drop_first [] = []
drop_first (t ∷ v) = v

abbrev pub is_empty : List ℕ → Bool
is_empty [] = true
is_empty (t ∷ v) = false

-- `if let Some(v) = get_mut(username) { if !v.is_empty() { v.remove(0); removed = true } }`
unfoldable pub drop_oldest : String → Sessions → Sessions × Bool
drop_oldest u [] = ([], false)
drop_oldest u ((a, v) ∷ m) =
    let (m', removed) = drop_oldest u m in
    if a == u
    then ((a, drop_first v) ∷ m, if is_empty v then false else true)
    else ((a, v) ∷ m', removed)

-- `if get(username).is_some_and(|v| v.is_empty()) { remove(username) }`
unfoldable pub remove_if_empty : String → Sessions → Sessions
remove_if_empty u [] = []
remove_if_empty u ((a, v) ∷ m) =
    if a == u then (if is_empty v then m else (a, v) ∷ m) else (a, v) ∷ remove_if_empty u m

unfoldable pub on_login : String → ℕ → SessionState → SessionState
on_login u now s = record s {
  per_account = push_session u now s.per_account;
  global = saturating_add s.global 1;
}

unfoldable pub on_logout : String → SessionState → SessionState
on_logout u s =
    let (m, removed) = drop_oldest u s.per_account in
    record s {
      per_account = remove_if_empty u m;
      global = if removed then s.global - 1 else s.global;
    }

-- `now.duration_since(t) < ttl`, where `duration_since` stops at 0.
abbrev pub fresh : ℕ → ℕ → ℕ → Bool
fresh ttl now t = ltb (now - t) ttl

-- `HashMap::retain` with the closure that trims each account and counts what it dropped.
unfoldable pub reap_sessions : ℕ → ℕ → Sessions → ℕ → Sessions × ℕ
reap_sessions ttl now [] reaped = ([], reaped)
reap_sessions ttl now ((a, v) ∷ m) reaped =
    let kept = retain (fresh ttl now) v in
    let (m', total) =
      reap_sessions ttl now m ((reaped + as_u32 (length v - length kept)) % 2 ^ 32) in
    if is_empty kept then (m', total) else ((a, kept) ∷ m', total)

-- The sweep, and the count it returns. `saturating_sub` stops at 0.
unfoldable pub reap : ℕ → ℕ → SessionState → SessionState × ℕ
reap ttl now s =
    let (m, reaped) = reap_sessions ttl now s.per_account 0 in
    (record s { per_account = m; global = s.global - reaped }, reaped)

abbrev pub over_account_cap : Option ℕ → List ℕ → Bool
over_account_cap none v = false
over_account_cap (some m) v = leb m (as_u32 (length v))

unfoldable pub at_capacity : String → SessionState → Bool
at_capacity u s =
    if leb s.max_global s.global
    then true
    else over_account_cap s.max_per_account (live u s.per_account)

unfoldable pub try_admit : String → ℕ → SessionState → SessionState × Bool
try_admit u now s =
    if leb s.max_global s.global
    then (s, false)
    else if over_account_cap s.max_per_account (live u s.per_account)
    then (s, false)
    else (
      record s {
        per_account = push_session u now s.per_account;
        global = saturating_add s.global 1;
      },
      true,
    )

unfoldable pub set_limits : ℕ → Option ℕ → SessionState → SessionState
set_limits max_global max_per_account s = record s {
  max_global = max_global;
  max_per_account = max_per_account;
}

-- `PresenceEvent` of libunftp, as the listener receives it with the user's name.
pub data PresenceEvent : Type 0 where
  logged_in logged_out : PresenceEvent

unfoldable pub receive_presence_event : PresenceEvent → String → SessionState → SessionState
receive_presence_event logged_in u s = s
receive_presence_event logged_out u s = on_logout u s

-- What the running server does to its tracker: the gate admits, libunftp reports, the reaper
-- sweeps, a reload sets new limits.
pub data Event : Type 0 where
  admit : String → ℕ → Event
  presence : PresenceEvent → String → Event
  sweep : ℕ → ℕ → Event
  limit : ℕ → Option ℕ → Event

unfoldable pub step : Event → SessionState → SessionState
step (admit u now) s = (try_admit u now s).0
step (presence e u) s = receive_presence_event e u s
step (sweep ttl now) s = (reap ttl now s).0
step (limit g p) s = set_limits g p s

unfoldable pub run : List Event → SessionState → SessionState
run [] s = s
run (e ∷ es) s = run es (step e s)
