-- ===== src/Store/Plain.antt =====
-- About `store_encrypted` of src/backend.rs: the name of the plain file.
use Prim.Native.String.{count}
use mathlib.Core.Option
use text.Mathlib.TextLemmas.{length-append}
use ftp_reolink.Base.{
  ℕ, ◌+◌, ◌≡◌, ◌≢◌, refl, sym, ap, ◌∙◌, String, ◌<>◌, Bool, true, false, Option, none, some, List,
  [], ◌∷◌, Result, ok, err, length, arith, Option-cases, inl, inr,
}
use ftp_reolink.Path.{FilePath, path_eq, parent, file_name}
use ftp_reolink.Path.Laws.{file_name-pushed, length-push_text, length-parent}
use ftp_reolink.Append.{staging_path, staging_suffix}
use ftp_reolink.Disk.{
  file, dir, Disk, IoError, not_found, already_exists, failed, Effect, node_at, exists_effect,
  create_dirs_effect, open_effect, write_effect, link_effect, remove_effect,
}
use ftp_reolink.Disk.Laws.{node_at-erase, node_at-cons, make_dirs_long}
use ftp_reolink.Disk.Act.{Turn, Act, call, raise, ◌>>=◌}
use ftp_reolink.Disk.Triple.{
  Ensures, Ensures-pure, Ensures-raise, Ensures-call, Ensures-bind, Ensures-attempt, Ensures-ignore,
  Ensures-wrap_err,
}
use ftp_reolink.Store.{
  Input, io, os, discard, refuse_if, create_parent, copy, linked, finalize, finalized, flush_effect,
  present_or_false, total_length, age_suffix, store_encrypted,
}

-- `place` ends in a name, and there is nothing at it.
module _ (place : FilePath) (name : String) (named : file_name place ≡ some name) where
  abbrev pub Absent : Disk → Type 0
  Absent d = node_at place d.names ≡ none

  -- What the other sessions do does not put anything at `place`.
  abbrev pub Spares : Turn → Type 0
  Spares t = (d : Disk) → Absent d → Absent (t.meanwhile d)

  abbrev pub Avoids : {E A : Type 0} → Act E A → Type 0
  Avoids m = Ensures Spares Absent m (λ r d. Absent d)

  avoid_call :
      {A : Type 0} (e : Effect A) → ((d : Disk) → Absent d → Absent (e d).1) → Avoids (call e)
  avoid_call e h = Ensures-call (λ r d. Absent d) e (λ t r. r) h (λ t r q d k. k)

  and_then :
      {E A B : Type 0} (m : Act E A) (g : A → Act E B)
      → Avoids m
      → ((a : A) → Avoids (g a))
      → Avoids (m >>= g)
  and_then m g hm hg = Ensures-bind m g hm hg (λ e d k. k)

  avoid_os : {A : Type 0} (e : Effect A) → ((d : Disk) → Absent d → Absent (e d).1) → Avoids (os e)
  avoid_os e h = Ensures-wrap_err (call e) (avoid_call e h) io (λ a d k. k) (λ a d k. k)

  abbrev p : FilePath
  p = age_suffix place

  abbrev s : FilePath
  s = staging_path p

  p_named : file_name p ≡ some (name <> ".age")
  unfolding age_suffix
  p_named = file_name-pushed place ".age" name named

  place_not_p : place ≢ p
  place_not_p e =
      let same : name ≡ name <> ".age" =
        Option.some-injective _ _ (sym named ∙ (ap file_name e ∙ p_named)) in
      omega (arith, ap count same, length-append name ".age")

  place_not_s : place ≢ s
  unfolding staging_path
  place_not_s e =
      let same : name ≡ (name <> ".age") <> staging_suffix = Option.some-injective _ _ (
        sym named
        ∙ (ap file_name e ∙ file_name-pushed p staging_suffix (name <> ".age") p_named)) in
      omega (
        arith,
        ap count same,
        length-append name ".age",
        length-append (name <> ".age") staging_suffix,
      )

  same_length : length s ≡ length place
  unfolding age_suffix staging_path
  same_length = length-push_text p staging_suffix p_named ∙ length-push_text place ".age" named

  avoid_write : (j : ℕ) (c : List ℕ) → Avoids (call (write_effect j c))
  unfolding write_effect
  avoid_write j c = avoid_call (write_effect j c) (λ d k. k)

  avoid_copy : (j : ℕ) (cs : List (List ℕ)) (breaks : Bool) (n : ℕ) → Avoids (copy j cs breaks n)
  unfolding copy
  avoid_copy j [] true n = Ensures-raise failed (λ d k. k)
  avoid_copy j [] false n = Ensures-pure n (λ d k. k)
  avoid_copy j (c ∷ cs) breaks n =
      and_then (call (write_effect j c)) _ (avoid_write j c)
        (λ u. avoid_copy j cs breaks (n + length c))

  avoid_parent : (o : Option FilePath) → parent s ≡ o → Avoids (create_parent s)
  unfolding create_parent create_dirs_effect
  avoid_parent none e = rw (e, create_parent) (Ensures-pure tt (λ d k. k))
  avoid_parent (some q) e =
      rw (e, create_parent)
        (avoid_os (create_dirs_effect q) (λ d k.
          make_dirs_long place d.names [] q (omega (arith, length-parent s q e, same_length)) ∙ k))

  avoid_open : Avoids (os (open_effect false s))
  unfolding open_effect
  avoid_open =
      avoid_os (open_effect false s)
        (λ d k. ground (arith, k, place_not_s, node_at-cons place s (file d.next) d.names))

  avoid_discard : Avoids (discard s)
  unfolding remove_effect
  avoid_discard =
      Ensures-ignore _
        (avoid_call (remove_effect s) (λ d k. ground (arith, k, node_at-erase place s d.names)))
        (λ r d k. k)

  avoid_link : Avoids (call (link_effect s p))
  unfolding link_effect
  avoid_link = avoid_call (link_effect s p) λ d k. elim (Option-cases (node_at s d.names)) [
    | inl e ↦ ground (arith, k, e)
    | inr (dir, e) ↦ ground (arith, k, e)
    | inr (file j, e) ↦ ground (arith, k, e, place_not_p, node_at-cons place p (file j) d.names)
  ]

  discard-raise : (e : _) → Avoids (discard s >>= λ u. raise {A = ℕ} e)
  discard-raise e = and_then (discard s) _ avoid_discard (λ u. Ensures-raise e (λ d k. k))

  avoid_linked : (n : ℕ) (r : Result IoError (Unit {0})) → Avoids (linked s n r)
  avoid_linked n (ok u) = and_then (discard s) _ avoid_discard (λ u. Ensures-pure n (λ d k. k))
  avoid_linked n (err already_exists) = discard-raise finalized
  avoid_linked n (err not_found) = discard-raise (io not_found)
  avoid_linked n (err failed) = discard-raise (io failed)

  avoid_refuse : (present : Bool) → Avoids (refuse_if present finalized)
  avoid_refuse true = Ensures-raise finalized (λ d k. k)
  avoid_refuse false = Ensures-pure tt (λ d k. k)

  pub store_encrypted-Avoids :
      (encrypt : List (List ℕ) → Bool → List (List ℕ) × Bool) (input : Input)
      → Avoids (store_encrypted encrypt (age_suffix place) input)
  unfolding store_encrypted finalize exists_effect
  store_encrypted-Avoids encrypt input =
      and_then _ _ (Ensures-attempt _ (avoid_call (exists_effect p) (λ d k. k)) (λ r d k. k))
        λ present. and_then _ _ (avoid_refuse (present_or_false present)) λ _.
          and_then _ _ (avoid_parent (parent s) refl) λ _. and_then _ _ avoid_open λ j.
            and_then _ _ (Ensures-wrap_err _ (avoid_copy j _ _ 0) io (λ a d k. k) (λ e d k. k)) λ n.
              and_then _ _ (avoid_os flush_effect (λ d k. k)) λ _.
                and_then _ _ (Ensures-attempt _ avoid_link (λ r d k. k))
                  (avoid_linked (total_length input.chunks))
