-- ===== src/Limits/Caps.antt =====
-- About the caps of src/limits.rs: when a session is admitted.
use ftp_reolink.Base.{
  ℕ, ◌+◌, ◌≤◌, ◌<◌, ◌≡◌, ◌↔◌, String, true, false, not, Option, none, some, List, [], ◌∷◌, ◌++◌,
  arith, length, length-append, ◌==◌, string_eq, if◌then◌else◌,
}
use ftp_reolink.Limits.{
  SessionState, live, drop_first, try_admit, at_capacity, Event, admit, presence, sweep, limit,
}
use ftp_reolink.Limits.Ledger.{length-live-le, live-push}
use ftp_reolink.Limits.Invariant.{Inv}

-- The account has room for one more session.
abbrev pub HasRoom : Option ℕ → ℕ → Type 0
HasRoom none n = Unit
HasRoom (some m) n = n < m

-- The account is within its cap.
abbrev pub WithinCap : Option ℕ → ℕ → Type 0
WithinCap none n = Unit
WithinCap (some m) n = n ≤ m

try_admit_needs :
    (u : String) (now : ℕ) (s : SessionState)
    → Inv s
    → (try_admit u now s).1 ≡ true
    → (s.global < s.max_global) × HasRoom s.max_per_account (length (live u s.per_account))
unfolding try_admit
try_admit_needs u now s v h = ground (arith, length-live-le u s.per_account)

try_admit_suffices :
    (u : String) (now : ℕ) (s : SessionState)
    → s.global < s.max_global
    → HasRoom s.max_per_account (length (live u s.per_account))
    → (try_admit u now s).1 ≡ true
unfolding try_admit
try_admit_suffices u now s g h = ground arith

-- The gate admits a login exactly when the global count and the account's own count both leave
-- room. This needs the counts to agree.
pub try_admit_iff :
    (u : String) (now : ℕ) (s : SessionState)
    → Inv s
    → ((try_admit u now s).1 ≡ true)
      ↔ ((s.global < s.max_global) × HasRoom s.max_per_account (length (live u s.per_account)))
unfolding try_admit
try_admit_iff u now s v =
    (λ h. try_admit_needs u now s v h, λ h. try_admit_suffices u now s h.0 h.1)

-- An admission gives the account one more session, adds one to the global count and leaves every
-- other account alone; a refusal leaves the whole state alone.
try_admit_lem :
    (u : String) (now : ℕ) (s : SessionState)
    → Inv s
    → let (t, admitted) = try_admit u now s in
      (admitted ≡ false → t ≡ s)
      × (admitted ≡ true
          → (t.global ≡ s.global + 1)
            × ((w : String)
                → live w t.per_account
                  ≡ (if u == w then live u s.per_account ++ (now ∷ []) else live w s.per_account)))
unfolding try_admit
try_admit_lem u now s v =
    (λ h. ground arith, λ h. (ground arith, λ w. ground (arith, live-push u now w s.per_account)))

-- The gate refuses exactly when `at_capacity` reports a full tracker.
try_admit-at_capacity :
    (u : String) (now : ℕ) (s : SessionState) → (try_admit u now s).1 ≡ not (at_capacity u s)
unfolding try_admit at_capacity
try_admit-at_capacity u now s = ground arith

-- The state is within its own caps.
pub record IsWithin (s : SessionState) : Type 0 where
  pub globally : s.global ≤ s.max_global
  pub each : (w : String) → WithinCap s.max_per_account (length (live w s.per_account))

-- The history sets no limits.
abbrev pub KeepsLimits : List Event → Type 0
KeepsLimits [] = Unit
KeepsLimits (limit g p ∷ es) = ⊥
KeepsLimits (admit u now ∷ es) = KeepsLimits es
KeepsLimits (presence e u ∷ es) = KeepsLimits es
KeepsLimits (sweep ttl now ∷ es) = KeepsLimits es

pub WithinCap-mono : (p : Option ℕ) {m n : ℕ} → m ≤ n → WithinCap p n → WithinCap p m
WithinCap-mono none h w = tt
WithinCap-mono (some k) h w = omega arith

pub length-drop_first-le : (v : List ℕ) → length (drop_first v) ≤ length v
length-drop_first-le [] = omega arith
length-drop_first-le (t ∷ v) = omega arith

admitted_within :
    (u : String) (now : ℕ) (s : SessionState) (w : String)
    → Inv s
    → WithinCap s.max_per_account (length (live w s.per_account))
    → WithinCap
        (try_admit u now s).0.max_per_account
        (length (live w (try_admit u now s).0.per_account))
unfolding try_admit
admitted_within u now s w v h = ground (
  arith,
  live-push u now w s.per_account,
  length-live-le u s.per_account,
  length-append (live u s.per_account) (now ∷ []),
)

pub try_admit-IsWithin :
    (u : String) (now : ℕ) (s : SessionState) → Inv s → IsWithin s → IsWithin (try_admit u now s).0
try_admit-IsWithin u now s v h = record {
  globally = unfold try_admit in ground arith;
  each = λ w. admitted_within u now s w v (h.each w);
}
