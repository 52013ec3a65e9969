-- ===== src/Disk/Still.antt =====
-- Actions when nobody else touches the disk and no call fails.
use mathlib.Core.List.{append_assoc, append-nil}
use ftp_reolink.Base.{
  ℕ, ◌≡◌, ◌≢◌, refl, sym, ap, ◌∙◌, List, [], ◌++◌, Result, ok, map_err, nat_eq, arith,
}
use ftp_reolink.Disk.{Disk, IoError, Effect, write_effect}
use ftp_reolink.Disk.Act.{World, Act, at_turn, take_turn, call, wrap_err, attempt, ignore}

abbrev pub still : Disk → World
still d = record { disk = d; turns = [] }

pub call-still :
    {A : Type 0} (f : Effect A) (d : Disk) → call f (still d) ≡ ((f d).0, still (f d).1)
unfolding call take_turn at_turn
call-still f d = refl

module _ {E A : Type 0} (m : Act E A) {w w' : World} {r : Result E A} where
  pub attempt_run : {F : Type 0} → m w ≡ (r, w') → attempt {F = F} m w ≡ (ok r, w')
  unfolding attempt
  attempt_run e = ap (λ (x : Result E A × World). (ok x.0, x.1)) e

  pub ignore_run : {F : Type 0} → m w ≡ (r, w') → ignore {F = F} m w ≡ (ok tt, w')
  unfolding ignore
  ignore_run e = ap (λ (x : Result E A × World). (ok tt, x.1)) e

  pub wrap_run : {F : Type 0} (f : E → F) → m w ≡ (r, w') → wrap_err f m w ≡ (map_err f r, w')
  unfolding wrap_err
  wrap_run f e = ap (λ (x : Result E A × World). (map_err f x.0, x.1)) e

-- An effect known at a disk, as a call.
pub call_run :
    {A : Type 0} (f : Effect A) {d d' : Disk} {r : Result IoError A}
    → f d ≡ (r, d')
    → call f (still d) ≡ (r, still d')
call_run {A} f {d} e = call-still f d ∙ ap (λ (x : Result IoError A × Disk). (x.0, still x.1)) e

-- `d'` is `d` with `bytes` at the end of inode `j`.
pub record Wrote (d : Disk) (j : ℕ) (bytes : List ℕ) (d' : Disk) : Type 0 where
  pub names : d'.names ≡ d.names
  pub next : d'.next ≡ d.next
  pub content : d'.bytes j ≡ d.bytes j ++ bytes
  pub others : (k : ℕ) → k ≢ j → d'.bytes k ≡ d.bytes k

pub Wrote-nil : (d : Disk) (j : ℕ) → Wrote d j [] d
Wrote-nil d j = record {
  names = refl;
  next = refl;
  content = sym (append-nil (d.bytes j));
  others = λ k h. refl;
}

pub Wrote-write :
    (d : Disk) (j : ℕ) (chunk bytes : List ℕ) (d' : Disk)
    → Wrote (write_effect j chunk d).1 j bytes d'
    → Wrote d j (chunk ++ bytes) d'
unfolding write_effect
Wrote-write d j chunk bytes d' h = record {
  names = h.names;
  next = h.next;
  content = ground (arith, h.content, append_assoc (d.bytes j) chunk bytes);
  others = λ k differs. ground (arith, h.others k differs);
}
