-- ===== src/Disk/Act.antt =====
-- Calls in sequence. Before each call the other sessions may have changed the disk, and any call
-- may fail: a script says what happens at each turn. A script that has ended brings no more of both.
use ftp_reolink.Base.{◌≡◌, refl, ap, Bool, true, false, List, [], ◌∷◌, Result, ok, err, map_err}
use ftp_reolink.Disk.{Disk, IoError, failed, Effect}

pub record Turn : Type 0 where
  pub meanwhile : Disk → Disk
  pub fault : Bool

pub record World : Type 0 where
  pub disk : Disk
  pub turns : List Turn

abbrev pub Act : Type 0 → Type 0 → Type 0
Act E A = World → Result E A × World

unfoldable pub at_turn :
    {A : Type 0} → Bool → Effect A → Disk → List Turn → Result IoError A × World
at_turn true f d ts = (err failed, record { disk = d; turns = ts })
at_turn false f d ts = let (r, d') = f d in (r, record { disk = d'; turns = ts })

unfoldable pub take_turn : {A : Type 0} → Effect A → Disk → List Turn → Result IoError A × World
unfolding at_turn
take_turn f d [] = at_turn false f d []
take_turn f d (t ∷ ts) = at_turn t.fault f (t.meanwhile d) ts

-- One call to the operating system.
unfoldable pub call : {A : Type 0} → Effect A → Act IoError A
unfolding take_turn
call f w = take_turn f w.disk w.turns

unfoldable pub pure : {E A : Type 0} → A → Act E A
pure a w = (ok a, w)

unfoldable pub raise : {E A : Type 0} → E → Act E A
raise e w = (err e, w)

-- `map_err(f)`
unfoldable pub wrap_err : {E F A : Type 0} → (E → F) → Act E A → Act F A
wrap_err f m w = let (r, w') = m w in (map_err f r, w')

-- The answer of a call as a value, to be matched on.
unfoldable pub attempt : {E F A : Type 0} → Act E A → Act F (Result E A)
attempt m w = let (r, w') = m w in (ok r, w')

abbrev pub continue : {E A B : Type 0} → Result E A → (A → Act E B) → Act E B
continue (ok a) f w = f a w
continue (err e) f w = (err e, w)

infixl 10 ◌>>=◌ ◌>>◌
unfoldable pub ◌>>=◌ : {E A B : Type 0} → Act E A → (A → Act E B) → Act E B
unfolding call pure raise wrap_err attempt
◌>>=◌ m f w = let (r, w') = m w in continue r f w'

abbrev pub ◌>>◌ : {E B : Type 0} → Act E (Unit {0}) → Act E B → Act E B
m >> n = m >>= λ _. n

-- `let _ = m.await`
unfoldable pub ignore : {E F A : Type 0} → Act E A → Act F (Unit {0})
ignore m w = let (r, w') = m w in (ok tt, w')

-- How a bind goes on, once its first action is known.
pub bind_ok :
    {E A B : Type 0} (m : Act E A) (f : A → Act E B) {w w' : World} {a : A}
    → m w ≡ (ok a, w')
    → (m >>= f) w ≡ f a w'
unfolding ◌>>=◌
bind_ok {E} {A} m f e = ap (λ (x : Result E A × World). continue x.0 f x.1) e

pub bind_err :
    {E A B : Type 0} (m : Act E A) (f : A → Act E B) {w w' : World} {e : E}
    → m w ≡ (err e, w')
    → (m >>= f) w ≡ (err e, w')
unfolding ◌>>=◌
bind_err {E} {A} m f q = ap (λ (x : Result E A × World). continue x.0 f x.1) q

pub pure_run : {E A : Type 0} (a : A) (w : World) → pure {E = E} a w ≡ (ok a, w)
unfolding pure
pure_run a w = refl
