-- ===== src/Disk/Calls.antt =====
-- What one call answers, and chains of actions whose errors are renamed.
use ftp_reolink.Base.{
  ◌≡◌, refl, ap, Bool, true, false, List, [], ◌∷◌, Result, ok, err, map_err, ◌⊎◌, inl, inr,
}
use ftp_reolink.Disk.{Disk, IoError, failed, Effect}
use ftp_reolink.Disk.Act.{World, Turn, at_turn, take_turn, Act, call, wrap_err, continue, ◌>>=◌}

-- A call whose effect always succeeds fails by a fault only.
pub call_cases :
    {A : Type 0} (e : Effect A) (a : A)
    → ((d : Disk) → (e d).0 ≡ ok a)
    → (w : World)
    → ((w' : World) × (call e w ≡ (ok a, w'))) ⊎ ((w' : World) × (call e w ≡ (err failed, w')))
unfolding call
call_cases {A} e a h w = go w.disk w.turns
  where
    at_cases :
        (fault : Bool) (d : Disk) (ts : List Turn)
        → ((w' : World) × (at_turn fault e d ts ≡ (ok a, w')))
          ⊎ ((w' : World) × (at_turn fault e d ts ≡ (err failed, w')))
    at_cases true d ts = inr (record { disk = d; turns = ts }, refl)
    at_cases false d ts = inl (
      record { disk = (e d).1; turns = ts },
      ap (λ (x : Result IoError A). (x, record { disk = (e d).1; turns = ts })) (h d),
    )

    go :
        (d : Disk) (ts : List Turn)
        → ((w' : World) × (take_turn e d ts ≡ (ok a, w')))
          ⊎ ((w' : World) × (take_turn e d ts ≡ (err failed, w')))
    go d [] = at_cases false d []
    go d (t ∷ ts) = at_cases t.fault (t.meanwhile d) ts

-- Errors are renamed one action at a time.
pub rebind :
    {E F A B C : Type 0} (f : E → F) (m : Act E A) (g : A → Act E B) (k : B → Act F C) (w : World)
    → (wrap_err f (m >>= g) >>= k) w ≡ (wrap_err f m >>= λ a. wrap_err f (g a) >>= k) w
unfolding ◌>>=◌ wrap_err
rebind {E} {F} {A} {B} {C} f m g k w = go (m w).0 (m w).1
  where
    go :
        (x : Result E A) (w' : World)
        → continue (map_err f (continue x g w').0) k (continue x g w').1
          ≡ continue (map_err f x) (λ a v. continue (map_err f (g a v).0) k (g a v).1) w'
    go (ok a) w' = refl
    go (err e) w' = refl
