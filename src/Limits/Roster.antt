-- ===== src/Limits/Roster.antt =====
-- What the tracker of src/limits.rs stands for: one list of the live sessions, in the order of their
-- logins. A cap is a bound on how many of it there are.
use ftp_reolink.Base.{
  ℕ, ◌+◌, ◌≡◌, refl, String, Bool, true, ◌&&◌, Option, none, some, List, [], ◌∷◌, ◌++◌, ltb, length,
  retain, arith, ◌==◌, string_eq, if◌then◌else◌,
}
use ftp_reolink.Limits.{
  fresh, drop_first, Event, admit, presence, sweep, limit, logged_in, logged_out,
}

abbrev pub Session : Type 0
Session = String × ℕ

pub record Roster : Type 0 where
  pub sessions : List Session
  pub max_global : ℕ
  pub max_per_account : Option ℕ

-- The login times of one account.
abbrev pub times : String → List Session → List ℕ
times u [] = []
times u ((a, t) ∷ l) = if a == u then t ∷ times u l else times u l

abbrev pub below_cap : Option ℕ → ℕ → Bool
below_cap none n = true
below_cap (some m) n = ltb n m

abbrev pub has_room : String → Roster → Bool
has_room u q =
    ltb (length q.sessions) q.max_global
    && below_cap q.max_per_account (length (times u q.sessions))

abbrev pub remove_first : String → List Session → List Session
remove_first u [] = []
remove_first u ((a, t) ∷ l) = if a == u then l else (a, t) ∷ remove_first u l

abbrev pub is_fresh : ℕ → ℕ → Session → Bool
is_fresh ttl now (a, t) = fresh ttl now t

abbrev pub roster_step : Event → Roster → Roster
roster_step (admit u now) q =
    if has_room u q then record q { sessions = q.sessions ++ ((u, now) ∷ []) } else q
roster_step (presence logged_in u) q = q
roster_step (presence logged_out u) q = record q { sessions = remove_first u q.sessions }
roster_step (sweep ttl now) q = record q { sessions = retain (is_fresh ttl now) q.sessions }
roster_step (limit g p) q = record q { max_global = g; max_per_account = p }

pub times-append :
    (w u : String) (now : ℕ) (l : List Session)
    → times w (l ++ ((u, now) ∷ [])) ≡ (if u == w then times w l ++ (now ∷ []) else times w l)
times-append w u now [] = ground arith
times-append w u now ((a, t) ∷ l) = ground (arith, times-append w u now l)

pub times-remove_first :
    (w u : String) (l : List Session)
    → times w (remove_first u l) ≡ (if u == w then drop_first (times w l) else times w l)
times-remove_first w u [] = ground arith
times-remove_first w u ((a, t) ∷ l) = ground (arith, times-remove_first w u l)

pub times-retain :
    (w : String) (ttl now : ℕ) (l : List Session)
    → times w (retain (is_fresh ttl now) l) ≡ retain (fresh ttl now) (times w l)
times-retain w ttl now [] = refl
times-retain w ttl now ((a, t) ∷ l) = ground (arith, times-retain w ttl now l)

-- The sessions of the other accounts.
abbrev pub without : String → List Session → List Session
without u [] = []
without u ((a, t) ∷ l) = if a == u then without u l else (a, t) ∷ without u l

pub length-without :
    (u : String) (l : List Session) → length l ≡ length (times u l) + length (without u l)
length-without u [] = omega arith
length-without u ((a, t) ∷ l) = ground (arith, length-without u l)

pub times-without :
    (w u : String) (l : List Session) → times w (without u l) ≡ (if u == w then [] else times w l)
times-without w u [] = ground arith
times-without w u ((a, t) ∷ l) = ground (arith, times-without w u l)

abbrev pub empty : ℕ → Option ℕ → Roster
empty g p = record { sessions = []; max_global = g; max_per_account = p }

abbrev pub roster_run : List Event → Roster → Roster
roster_run [] q = q
roster_run (e ∷ es) q = roster_run es (roster_step e q)

-- What the gate is to answer to each login of a history.
abbrev pub roster_answers : List Event → Roster → List Bool
roster_answers [] q = []
roster_answers (admit u now ∷ es) q = has_room u q ∷ roster_answers es (roster_step (admit u now) q)
roster_answers (presence e u ∷ es) q = roster_answers es (roster_step (presence e u) q)
roster_answers (sweep ttl now ∷ es) q = roster_answers es (roster_step (sweep ttl now) q)
roster_answers (limit g p ∷ es) q = roster_answers es (roster_step (limit g p) q)
