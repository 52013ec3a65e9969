-- ===== src/Limits/Ledger.antt =====
-- The session table of src/limits.rs: what its operations do to each account and to the total.
use ftp_reolink.Base.{
  ℕ, suc, ◌+◌, ◌-◌, ◌≤◌, ◌<◌, ◌%◌, ◌^◌, ◌≡◌, refl, String, Bool, true, false, List, [], ◌∷◌, ◌++◌,
  arith, length, length-append, length-retain-le, retain, ◌==◌, string_eq, if◌then◌else◌,
}
use ftp_reolink.Limits.{
  Sessions, live, push_session, drop_oldest, drop_first, is_empty, remove_if_empty, reap_sessions,
  fresh, as_u32,
}

-- The number of live sessions.
abbrev pub total : Sessions → ℕ
total [] = 0
total ((a, v) ∷ m) = length v + total m

abbrev pub has : String → Sessions → Bool
has u [] = false
has u ((a, v) ∷ m) = if a == u then true else has u m

-- No account has two entries.
abbrev pub NodupKeys : Sessions → Type 0
NodupKeys [] = Unit
NodupKeys ((a, v) ∷ m) = (has a m ≡ false) × NodupKeys m

-- No entry is left without a session.
abbrev pub Trimmed : Sessions → Type 0
Trimmed [] = Unit
Trimmed ((a, v) ∷ m) = (is_empty v ≡ false) × Trimmed m

pub length-live-le : (u : String) (m : Sessions) → length (live u m) ≤ total m
unfolding live
length-live-le u [] = omega arith
length-live-le u ((a, v) ∷ m) = ground (arith, length-live-le u m)

pub live_absent : (u : String) (m : Sessions) → has u m ≡ false → live u m ≡ []
unfolding live
live_absent u [] h = refl
live_absent u ((a, v) ∷ m) h = ground (arith, live_absent u m)

is_empty-append : (v : List ℕ) (t : ℕ) → is_empty (v ++ (t ∷ [])) ≡ false
is_empty-append [] t = refl
is_empty-append (x ∷ v) t = refl

module _ (u : String) (now : ℕ) where
  pub total-push : (m : Sessions) → total (push_session u now m) ≡ suc (total m)
  unfolding push_session
  total-push [] = omega arith
  total-push ((a, v) ∷ m) = ground (arith, total-push m, length-append v (now ∷ []))

  pub live-push :
      (w : String) (m : Sessions)
      → live w (push_session u now m) ≡ (if u == w then live u m ++ (now ∷ []) else live w m)
  unfolding push_session live
  live-push w [] = ground arith
  live-push w ((a, v) ∷ m) = ground (arith, live-push w m)

  has-push :
      (w : String) (m : Sessions)
      → has w (push_session u now m) ≡ (if u == w then true else has w m)
  unfolding push_session
  has-push w [] = refl
  has-push w ((a, v) ∷ m) = ground (arith, has-push w m)

  pub push-NodupKeys : (m : Sessions) → NodupKeys m → NodupKeys (push_session u now m)
  unfolding push_session
  push-NodupKeys [] d = (refl, tt)
  push-NodupKeys ((a, v) ∷ m) d = ground (arith, push-NodupKeys m d.1, has-push a m)

  pub push-Trimmed : (m : Sessions) → Trimmed m → Trimmed (push_session u now m)
  unfolding push_session
  push-Trimmed [] d = (refl, tt)
  push-Trimmed ((a, v) ∷ m) d = ground (arith, push-Trimmed m d.1, is_empty-append v now)

-- `on_logout` on the table: the oldest session goes, and an entry that became empty.
module _ (u : String) where
  abbrev pub dropped : Sessions → Sessions
  dropped m = remove_if_empty u (drop_oldest u m).0

  pub total-dropped :
      (m : Sessions)
      → total m ≡ (if (drop_oldest u m).1 then suc (total (dropped m)) else total (dropped m))
  unfolding drop_oldest remove_if_empty
  total-dropped [] = refl
  total-dropped ((a, []) ∷ m) = ground (arith, total-dropped m)
  total-dropped ((a, x ∷ []) ∷ m) = ground (arith, total-dropped m)
  total-dropped ((a, x ∷ y ∷ v) ∷ m) = ground (arith, total-dropped m)

  pub drop_oldest_removed :
      (m : Sessions) → (drop_oldest u m).1 ≡ (if is_empty (live u m) then false else true)
  unfolding drop_oldest live
  drop_oldest_removed [] = refl
  drop_oldest_removed ((a, v) ∷ m) = ground (arith, drop_oldest_removed m)

  has-dropped : (w : String) (m : Sessions) → has w m ≡ false → has w (dropped m) ≡ false
  unfolding drop_oldest remove_if_empty
  has-dropped w [] h = refl
  has-dropped w ((a, []) ∷ m) h = ground (arith, has-dropped w m)
  has-dropped w ((a, x ∷ []) ∷ m) h = ground (arith, has-dropped w m)
  has-dropped w ((a, x ∷ y ∷ v) ∷ m) h = ground (arith, has-dropped w m)

  pub dropped-NodupKeys : (m : Sessions) → NodupKeys m → NodupKeys (dropped m)
  unfolding drop_oldest remove_if_empty
  dropped-NodupKeys [] d = tt
  dropped-NodupKeys ((a, []) ∷ m) d = ground (arith, dropped-NodupKeys m d.1, has-dropped a m)
  dropped-NodupKeys ((a, x ∷ []) ∷ m) d = ground (arith, dropped-NodupKeys m d.1, has-dropped a m)
  dropped-NodupKeys ((a, x ∷ y ∷ v) ∷ m) d =
      ground (arith, dropped-NodupKeys m d.1, has-dropped a m)

  pub dropped-Trimmed : (m : Sessions) → Trimmed m → Trimmed (dropped m)
  unfolding drop_oldest remove_if_empty
  dropped-Trimmed [] d = tt
  dropped-Trimmed ((a, []) ∷ m) d = ground (arith, dropped-Trimmed m d.1)
  dropped-Trimmed ((a, x ∷ []) ∷ m) d = ground (arith, dropped-Trimmed m d.1)
  dropped-Trimmed ((a, x ∷ y ∷ v) ∷ m) d = ground (arith, dropped-Trimmed m d.1)

  pub live-dropped :
      (w : String) (m : Sessions)
      → NodupKeys m
      → live w (dropped m) ≡ (if u == w then drop_first (live w m) else live w m)
  unfolding drop_oldest remove_if_empty live
  live-dropped w [] d = ground arith
  live-dropped w ((a, []) ∷ m) d = ground (arith, live-dropped w m d.1, live_absent a m)
  live-dropped w ((a, x ∷ []) ∷ m) d = ground (arith, live-dropped w m d.1, live_absent a m)
  live-dropped w ((a, x ∷ y ∷ v) ∷ m) d = ground (arith, live-dropped w m d.1)

module _ (ttl now : ℕ) where
  -- The counter after an account is trimmed.
  abbrev counted : List ℕ → ℕ → ℕ
  counted v r = (r + as_u32 (length v - length (retain (fresh ttl now) v))) % 2 ^ 32

  abbrev pub swept : Sessions → ℕ → Sessions
  swept m r = (reap_sessions ttl now m r).0

  -- The count does not wrap: what is dropped fits in the total.
  pub total-swept :
      (m : Sessions) (r : ℕ)
      → r + total m < 2 ^ 32
      → (reap_sessions ttl now m r).1 + total (swept m r) ≡ r + total m
  unfolding reap_sessions
  total-swept [] r h = omega arith
  total-swept ((a, v) ∷ m) r h = ground (
    arith,
    length-retain-le (fresh ttl now) v,
    total-swept m (r + (length v - length (retain (fresh ttl now) v))),
  )

  has-swept : (w : String) (m : Sessions) (r : ℕ) → has w m ≡ false → has w (swept m r) ≡ false
  unfolding reap_sessions
  has-swept w [] r h = refl
  has-swept w ((a, v) ∷ m) r h = ground (arith, has-swept w m (counted v r))

  pub swept-NodupKeys : (m : Sessions) (r : ℕ) → NodupKeys m → NodupKeys (swept m r)
  unfolding reap_sessions
  swept-NodupKeys [] r d = tt
  swept-NodupKeys ((a, v) ∷ m) r d =
      ground (arith, swept-NodupKeys m (counted v r) d.1, has-swept a m (counted v r) d.0)

  pub swept-Trimmed : (m : Sessions) (r : ℕ) → Trimmed (swept m r)
  unfolding reap_sessions
  swept-Trimmed [] r = tt
  swept-Trimmed ((a, v) ∷ m) r = ground (arith, swept-Trimmed m (counted v r))

  pub live-swept :
      (w : String) (m : Sessions) (r : ℕ)
      → NodupKeys m
      → live w (swept m r) ≡ retain (fresh ttl now) (live w m)
  unfolding reap_sessions live
  live-swept w [] r d = refl
  live-swept w ((a, v) ∷ m) r d = ground (arith, live-swept w m (counted v r) d.1, live_absent a m)
