-- ===== src/Main/Appending.antt =====
-- About the `write_all` of src/main.rs: what it leaves of a file to which it appends.
use std.Path.{fun_ext}
use mathlib.Core.Path.{subst}
use mathlib.Core.List.{append_assoc, append-nil}
use ftp_reolink.Base.{ℕ, ◌≡◌, sym, ap, ◌∙◌, List, [], ◌∷◌, ◌++◌, Result, ok, err, arith, nat_eq}
use ftp_reolink.Disk.{Disk, IoError, update, write_effect}
use ftp_reolink.Disk.Act.{call}
use ftp_reolink.Disk.Writing.{cut_at, cut_at-append, write_all}
use ftp_reolink.Disk.Triple.{Ensures, Ensures-strengthen, Ensures-pure, Ensures-call, Ensures-bind}
use ftp_reolink.Store.Atomic.{Alone}

-- The disk with `bytes` at the end of the file at inode `i`.
abbrev pub extended : Disk → ℕ → List ℕ → Disk
extended d i bytes = record d { bytes = update d.bytes i (d.bytes i ++ bytes) }

module _ (d : Disk) (i : ℕ) where
  pub extended-nil : extended d i [] ≡ d
  extended-nil = ap (λ (f : ℕ → List ℕ). record d { bytes = f }) (fun_ext same)
    where
      same : (j : ℕ) → update d.bytes i (d.bytes i ++ []) j ≡ d.bytes j
      same j = ground (arith, append-nil (d.bytes i))

  extended-extended : (xs ys : List ℕ) → extended (extended d i xs) i ys ≡ extended d i (xs ++ ys)
  extended-extended xs ys = ap (λ (f : ℕ → List ℕ). record d { bytes = f }) (fun_ext same)
    where
      same :
          (j : ℕ)
          → update (extended d i xs).bytes i ((extended d i xs).bytes i ++ ys) j
            ≡ update d.bytes i (d.bytes i ++ (xs ++ ys)) j
      same j = ground (arith, append_assoc (d.bytes i) xs ys)

  -- The file has grown by a beginning of `bytes`.
  abbrev pub Begun : List ℕ → Disk → Type 0
  Begun bytes d' =
      (some_bytes : List ℕ) × (rest : List ℕ) × (some_bytes ++ rest ≡ bytes)
      × (d' ≡ extended d i some_bytes)

  abbrev pub Wrote : List ℕ → Result IoError (Unit {0}) → Disk → Type 0
  Wrote bytes (ok u) d' = d' ≡ extended d i bytes
  Wrote bytes (err e) d' = Begun bytes d'

  abbrev Grown : List ℕ → Disk → Type 0
  Grown xs d' = d' ≡ extended d i xs

  -- One write that adds `ys` to what is there of `xs`.
  abbrev Added : List ℕ → List ℕ → Result IoError (Unit {0}) → Disk → Type 0
  Added xs ys (ok u) d' = Grown (xs ++ ys) d'
  Added xs ys (err e) d' = Grown xs d'

  added :
      (xs ys : List ℕ) (d' : Disk)
      → Grown xs d'
      → Added xs ys (write_effect i ys d').0 (write_effect i ys d').1
  unfolding write_effect
  added xs ys d' k = ap (λ (e : Disk). extended e i ys) k ∙ extended-extended xs ys

  step_write :
      (xs ys : List ℕ) → Ensures (Alone Unit) (Grown xs) (call (write_effect i ys)) (Added xs ys)
  step_write xs ys =
      Ensures-call (Added xs ys) (write_effect i ys) (λ t r d' k. r.0 d' ∙ k) (added xs ys)
        (λ t r q d' k. k)

  last :
      (xs ys bytes : List ℕ)
      → xs ++ ys ≡ bytes
      → (r : Result IoError (Unit {0})) (d' : Disk) → Added xs ys r d'
      → Wrote bytes r d'
  last xs ys bytes h (ok u) d' k = subst (λ l. Grown l d') h k
  last xs ys bytes h (err e) d' k = (xs, ys, h, k)

  regroup :
      (xs : List ℕ) (b n : ℕ) (ys bytes : List ℕ)
      → xs ++ (b ∷ ys) ≡ bytes
      → (xs ++ (b ∷ (cut_at n ys).0)) ++ (cut_at n ys).1 ≡ bytes
  regroup xs b n ys bytes h =
      append_assoc xs (b ∷ (cut_at n ys).0) (cut_at n ys).1
      ∙ (ap (λ (l : List ℕ). xs ++ (b ∷ l)) (cut_at-append n ys) ∙ h)

  -- However the system cuts the text, and whichever write fails.
  pub step_write_all :
      (xs ys cuts bytes : List ℕ)
      → xs ++ ys ≡ bytes
      → Ensures (Alone Unit) (Grown xs) (write_all i ys cuts) (Wrote bytes)
  unfolding write_all
  step_write_all xs [] cuts bytes h =
      Ensures-pure tt (λ d' k. subst (λ l. Grown l d') (sym (append-nil xs) ∙ h) k)
  step_write_all xs (b ∷ ys) [] bytes h =
      Ensures-strengthen _ (step_write xs (b ∷ ys)) (last xs (b ∷ ys) bytes h)
  step_write_all xs (b ∷ ys) (n ∷ cuts) bytes h =
      Ensures-bind (call (write_effect i (b ∷ (cut_at n ys).0))) _
        (step_write xs (b ∷ (cut_at n ys).0))
        (λ u.
          step_write_all (xs ++ (b ∷ (cut_at n ys).0)) (cut_at n ys).1 cuts bytes
            (regroup xs b n ys bytes h))
        (λ e d' k. (xs, b ∷ ys, h, k))
