-- ===== src/Disk/Triple.antt =====
-- What an action makes sure of, one rule for each way to build an action.
use ftp_reolink.Base.{◌≡◌, refl, Bool, true, false, List, [], ◌∷◌, Result, ok, err, map_err, All}
use ftp_reolink.Disk.{Disk, IoError, failed, Effect}
use ftp_reolink.Disk.Act.{
  Turn, World, Act, at_turn, take_turn, call, pure, raise, wrap_err, attempt, continue, ◌>>=◌,
  ignore,
}

-- `R` is what is known of every turn of the script. From a disk with `K` the action ends in a disk
-- with `Q`, which may speak of the result.
pub record Ensures {E A : Type 0} (R : Turn → Type 0) (K : Disk → Type 0) (m : Act E A)
    (Q : Result E A → Disk → Type 0) : Type 0 where
  pub at : (w : World) → All R w.turns → K w.disk → All R (m w).1.turns × Q (m w).0 (m w).1.disk

-- What the others may do between two calls keeps `K`.
abbrev pub Stable : (Turn → Type 0) → (Disk → Type 0) → Type 0
Stable R K = (t : Turn) → R t → (d : Disk) → K d → K (t.meanwhile d)

module _ {E A : Type 0} {R : Turn → Type 0} {K : Disk → Type 0}
    {Q : Result E A → Disk → Type 0} where
  pub Ensures-pure : (a : A) → ((d : Disk) → K d → Q (ok a) d) → Ensures R K (pure a) Q
  unfolding pure
  Ensures-pure a h = record { at = λ w r k. (r, h w.disk k) }

  pub Ensures-raise : (e : E) → ((d : Disk) → K d → Q (err e) d) → Ensures R K (raise e) Q
  unfolding raise
  Ensures-raise e h = record { at = λ w r k. (r, h w.disk k) }

  pub Ensures-absurd : (m : Act E A) → ((d : Disk) → K d → ⊥) → Ensures R K m Q
  Ensures-absurd m h = record { at = λ w r k. absurd (h w.disk k) }

  -- What is known whatever the disk.
  pub Ensures-given :
      (m : Act E A) (P : Type 0) → ((d : Disk) → K d → P) → (P → Ensures R K m Q) → Ensures R K m Q
  Ensures-given m P h e = record { at = λ w r k. (e (h w.disk k)).at w r k }

  pub Ensures-weaken :
      {L : Disk → Type 0} (m : Act E A)
      → ((d : Disk) → K d → L d)
      → Ensures R L m Q
      → Ensures R K m Q
  Ensures-weaken m h e = record { at = λ w r k. e.at w r (h w.disk k) }

  pub Ensures-strengthen :
      {S : Result E A → Disk → Type 0} (m : Act E A)
      → Ensures R K m S
      → ((x : Result E A) (d : Disk) → S x d → Q x d)
      → Ensures R K m Q
  Ensures-strengthen m e h = record { at = λ w r k. ((e.at w r k).0, h _ _ (e.at w r k).1) }

module _ {A : Type 0} {R : Turn → Type 0} {K : Disk → Type 0} (Q : Result IoError A → Disk → Type 0)
    (f : Effect A) (stable : Stable R K) (done : (d : Disk) → K d → Q (f d).0 (f d).1)
    (fails : (t : Turn) → R t → t.fault ≡ true → (d : Disk) → K d → Q (err failed) d) where
  at_turn_lem :
      (fault : Bool) (d : Disk) (ts : List Turn)
      → All R ts
      → (fault ≡ true → Q (err failed) d)
      → K d
      → All R (at_turn fault f d ts).1.turns
        × Q (at_turn fault f d ts).0 (at_turn fault f d ts).1.disk
  unfolding at_turn
  at_turn_lem true d ts r q k = (r, q refl)
  at_turn_lem false d ts r q k = (r, done d k)

  take_turn_lem :
      (d : Disk) (ts : List Turn)
      → All R ts
      → K d
      → All R (take_turn f d ts).1.turns × Q (take_turn f d ts).0 (take_turn f d ts).1.disk
  unfolding take_turn
  take_turn_lem d [] r k = at_turn_lem false d [] tt (λ e. absurd (cc e)) k
  take_turn_lem d (t ∷ ts) r k =
      let k' : K (t.meanwhile d) = stable t r.0 d k in
      at_turn_lem t.fault (t.meanwhile d) ts r.1 (λ e. fails t r.0 e (t.meanwhile d) k') k'

  -- A call does what it does alone, or fails, on a disk that the others may have changed.
  pub Ensures-call : Ensures R K (call f) Q
  unfolding call
  Ensures-call = record { at = λ w r k. take_turn_lem w.disk w.turns r k }

module _ {E A B : Type 0} {R : Turn → Type 0} {K : Disk → Type 0} {S : Result E A → Disk → Type 0}
    {Q : Result E B → Disk → Type 0} (m : Act E A) (f : A → Act E B) (first : Ensures R K m S)
    (next : (a : A) → Ensures R (S (ok a)) (f a) Q)
    (stop : (e : E) (d : Disk) → S (err e) d → Q (err e) d) where
  continue_lem :
      (x : Result E A) (w : World)
      → All R w.turns
      → S x w.disk
      → All R (continue x f w).1.turns × Q (continue x f w).0 (continue x f w).1.disk
  continue_lem (ok a) w r s = (next a).at w r s
  continue_lem (err e) w r s = (r, stop e w.disk s)

  pub Ensures-bind : Ensures R K (m >>= f) Q
  unfolding ◌>>=◌
  Ensures-bind = record {
    at = λ w r k. continue_lem (m w).0 (m w).1 (first.at w r k).0 (first.at w r k).1;
  }

module _ {E F A : Type 0} {R : Turn → Type 0} {K : Disk → Type 0} {S : Result E A → Disk → Type 0}
    (m : Act E A) (inner : Ensures R K m S) where
  pub Ensures-attempt :
      {Q : Result F (Result E A) → Disk → Type 0}
      → ((x : Result E A) (d : Disk) → S x d → Q (ok x) d)
      → Ensures R K (attempt m) Q
  unfolding attempt
  Ensures-attempt h = record { at = λ w r k. ((inner.at w r k).0, h _ _ (inner.at w r k).1) }

  pub Ensures-ignore :
      {Q : Result F (Unit {0}) → Disk → Type 0}
      → ((x : Result E A) (d : Disk) → S x d → Q (ok tt) d)
      → Ensures R K (ignore m) Q
  unfolding ignore
  Ensures-ignore h = record { at = λ w r k. ((inner.at w r k).0, h _ _ (inner.at w r k).1) }

  wrapped :
      (f : E → F) (Q : Result F A → Disk → Type 0)
      → ((a : A) (d : Disk) → S (ok a) d → Q (ok a) d)
      → ((e : E) (d : Disk) → S (err e) d → Q (err (f e)) d)
      → (x : Result E A) (d : Disk) → S x d
      → Q (map_err f x) d
  wrapped f Q h g (ok a) d s = h a d s
  wrapped f Q h g (err e) d s = g e d s

  pub Ensures-wrap_err :
      (f : E → F) {Q : Result F A → Disk → Type 0}
      → ((a : A) (d : Disk) → S (ok a) d → Q (ok a) d)
      → ((e : E) (d : Disk) → S (err e) d → Q (err (f e)) d)
      → Ensures R K (wrap_err f m) Q
  unfolding wrap_err
  Ensures-wrap_err f {Q} h g = record {
    at = λ w r k. ((inner.at w r k).0, wrapped f Q h g _ _ (inner.at w r k).1);
  }
