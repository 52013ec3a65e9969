-- ===== src/Base/Outcome.antt =====
-- `Result<A, E>` and its `?`.
use mathlib.Core.Path.{◌≡◌, refl}
use mathlib.Core.Bool.{Bool, true, false}
use mathlib.Core.Logic.{◌⊎◌, inl, inr}
use mathlib.Core.Option.{Option, none, some}

pub data Result (E A : Type 0) : Type 0 where
  err : E → Result E A
  ok : A → Result E A

-- `Option::ok_or`
abbrev pub ok_or : {E A : Type 0} → Option A → E → Result E A
ok_or (some a) e = ok a
ok_or none e = err e

module _ {E : Type 0} where
  -- `Result::map_err`
  abbrev pub map_err : {F A : Type 0} → (E → F) → Result E A → Result F A
  map_err f (err e) = err (f e)
  map_err f (ok a) = ok a

  -- `if !test { return Err(e) }`
  abbrev pub guard : Bool → E → Result E (Unit {0})
  guard test e = elim test [ true ↦ ok tt | false ↦ err e ]

  infixl 5 ◌>>=◌ ◌>>◌
  abbrev pub ◌>>=◌ : {A B : Type 0} → Result E A → (A → Result E B) → Result E B
  ◌>>=◌ (err e) next = err e
  ◌>>=◌ (ok a) next = next a

  abbrev pub ◌>>◌ : {B : Type 0} → Result E (Unit {0}) → Result E B → Result E B
  ◌>>◌ (err e) after = err e
  ◌>>◌ (ok u) after = after

  -- What is known when a chain went through.
  module _ {B : Type 0} {b : B} where
    pub guard-eq-ok :
        (test : Bool) (e : E) (after : Result E B)
        → (guard test e >> after) ≡ ok b
        → (test ≡ true) × (after ≡ ok b)
    guard-eq-ok false e after through = cc
    guard-eq-ok true e after through = (refl, through)

    pub >>-eq-ok :
        (first : Result E (Unit {0})) (after : Result E B)
        → (first >> after) ≡ ok b
        → (first ≡ ok tt) × (after ≡ ok b)
    >>-eq-ok (err e) after through = cc
    >>-eq-ok (ok u) after through = (refl, through)

    pub >>=-eq-ok :
        {A : Type 0} (first : Result E A) (next : A → Result E B)
        → (first >>= next) ≡ ok b
        → (a : A) × (first ≡ ok a) × (next a ≡ ok b)
    >>=-eq-ok (err e) next through = cc
    >>=-eq-ok (ok a) next through = (a, refl, through)

pub Result-cases :
    {E A : Type 0} (r : Result E A) → ((e : E) × (r ≡ err e)) ⊎ ((a : A) × (r ≡ ok a))
Result-cases (err e) = inl (e, refl)
Result-cases (ok a) = inr (a, refl)
