-- ===== src/Scope/Exact.antt =====
-- About `contained` of src/paths.rs: what a path resolves to.
use mathlib.Core.Path.{subst}
use mathlib.Core.List.{
  reverse, reverse-append, reverse-reverse, reverse-cons, append_assoc, append-nil, map-append,
}
use ftp_reolink.Base.{
  ◌≡◌, refl, ap, sym, ◌∙◌, String, Option, none, some, List, [], ◌∷◌, ◌++◌, arith, map, Result, ok,
  err,
}
use ftp_reolink.Path.{Component, FilePath, root_dir, cur_dir, parent_dir, prefix, normal, join_name}
use ftp_reolink.Path.Laws.{starts_with-append}
use ftp_reolink.Scope.{
  PathError, not_found, single, normalize, within, settle, settle_whole, join_all, ascend,
  contained, resolve,
}

map-reverse : {A B : Type 0} (f : A → B) (l : List A) → reverse (map f l) ≡ map f (reverse l)
map-reverse f [] = refl
map-reverse f (a ∷ l) = rw (reverse-cons, reverse-cons, map-append, map-reverse f l)

abbrev pub names : List String → FilePath
names = map normal

pub join_all-names :
    (base : FilePath) (parts : List String) → join_all base parts ≡ base ++ names parts
join_all-names base [] = rw append-nil
join_all-names base (s ∷ parts) = join_all-names (join_name base s) parts ∙ rw append_assoc

module _ (canonicalize : FilePath → Option FilePath) where
  -- None of the ancestors that end in the names `ns` (the last one first) above `rest` exists.
  abbrev pub Missing : List String → FilePath → Type 0
  Missing [] rest = Unit
  Missing (n ∷ ns) rest = (canonicalize (reverse (names (n ∷ ns) ++ rest)) ≡ none) × Missing ns rest

  -- How the loop found `r` from an ancestor (last component first) and the tail taken off so far.
  pub record Found (anc : List Component) (tail r : FilePath) : Type 0 where
    pub taken : List String
    pub rest : List Component
    pub canon : FilePath
    pub split : anc ≡ names taken ++ rest
    pub missing : Missing taken rest
    pub exists : canonicalize (reverse rest) ≡ some canon
    pub result : r ≡ canon ++ (reverse (names taken) ++ tail)

  within-eq-ok : (base_c p r : FilePath) → within base_c p ≡ ok r → r ≡ p
  within-eq-ok base_c p r h = ground arith

  here :
      (anc : List Component) (base_c canon tail r : FilePath)
      → canonicalize (reverse anc) ≡ some canon
      → within base_c (canon ++ tail) ≡ ok r
      → Found anc tail r
  here anc base_c canon tail r e h = record {
    taken = [];
    rest = anc;
    canon = canon;
    split = refl;
    missing = tt;
    exists = e;
    result = within-eq-ok base_c (canon ++ tail) r h;
  }

  settle-Found :
      (anc : List Component) (base_c : FilePath) (o : Option FilePath) (tail r : FilePath)
      (above : Result PathError FilePath)
      → canonicalize (reverse anc) ≡ o
      → (canonicalize (reverse anc) ≡ none → above ≡ ok r → Found anc tail r)
      → settle base_c o tail above ≡ ok r
      → Found anc tail r
  settle-Found anc base_c (some canon) tail r above e f h = here anc base_c canon tail r e h
  settle-Found anc base_c none tail r above e f h = f e h

  up :
      (name : String) (anc : List Component) (tail r : FilePath)
      → canonicalize (reverse (normal name ∷ anc)) ≡ none
      → Found anc (normal name ∷ tail) r
      → Found (normal name ∷ anc) tail r
  up name anc tail r e found = record {
    taken = name ∷ found.taken;
    rest = found.rest;
    canon = found.canon;
    split = ap (◌∷◌ (normal name)) found.split;
    missing =
        (subst (λ a. canonicalize (reverse (normal name ∷ a)) ≡ none) found.split e, found.missing);
    exists = found.exists;
    result = found.result ∙ rw (reverse-cons, append_assoc);
  }

  -- The slow path of the jail check: the result is the real place of the longest ancestor that
  -- resolves, with the names that were taken off put back in order; every longer ancestor failed
  -- to resolve.
  ascend-Found :
      (base_c : FilePath) (anc : List Component) (tail r : FilePath)
      → ascend canonicalize base_c anc tail ≡ ok r
      → Found anc tail r
  unfolding ascend
  ascend-Found base_c [] tail r h =
      settle-Found [] base_c _ tail r (err not_found) refl (λ e k. absurd (cc k)) h
  ascend-Found base_c (normal name ∷ anc) tail r h =
      settle-Found (normal name ∷ anc) base_c _ tail r _ refl
        (λ e k. up name anc tail r e (ascend-Found base_c anc (normal name ∷ tail) r k)) h
  ascend-Found base_c (c ∷ anc) tail r h =
      settle-Found (c ∷ anc) base_c _ tail r (err not_found) refl (λ e k. absurd (cc k)) h

-- No link stands on the way from `base` down to `parts`: on this way, a place that resolves is its own
-- real path.
abbrev pub NoLinks : (FilePath → Option FilePath) → FilePath → List String → Type 0
NoLinks canonicalize base parts =
    (taken rest : List String) (q : FilePath)
    → taken ++ rest ≡ parts
    → canonicalize (base ++ names taken) ≡ some q
    → q ≡ base ++ names taken

module _ (canonicalize : FilePath → Option FilePath) (base : FilePath)
    (real : canonicalize base ≡ some base) (parts : List String)
    (links : NoLinks canonicalize base parts) where
  within-base : (rest : FilePath) → within base (base ++ rest) ≡ ok (base ++ rest)
  within-base rest = rw (starts_with-append base rest)

  settle-plain :
      (o : Option FilePath) (p tail rest : FilePath) (above : Result PathError FilePath)
      → ((q : FilePath) → canonicalize p ≡ some q → q ≡ p)
      → canonicalize p ≡ o
      → p ++ tail ≡ base ++ rest
      → above ≡ ok (base ++ rest)
      → settle base o tail above ≡ ok (base ++ rest)
  settle-plain none p tail rest above l e h k = k
  settle-plain (some canon) p tail rest above l e h k = rw (l canon e, h) (within-base rest)

  reverse-base :
      (ns : List String) → reverse (names ns ++ reverse base) ≡ base ++ reverse (names ns)
  reverse-base ns = rw (reverse-append, reverse-reverse)

  at_base :
      (anc : List Component) (tail : FilePath)
      → reverse anc ≡ base
      → ascend canonicalize base anc tail ≡ ok (base ++ tail)
  unfolding ascend
  at_base [] tail e = rw (e, real) (within-base tail)
  at_base (normal name ∷ anc) tail e = rw (e, real) (within-base tail)
  at_base (root_dir ∷ anc) tail e = rw (e, real) (within-base tail)
  at_base (cur_dir ∷ anc) tail e = rw (e, real) (within-base tail)
  at_base (parent_dir ∷ anc) tail e = rw (e, real) (within-base tail)
  at_base (prefix s ∷ anc) tail e = rw (e, real) (within-base tail)

  no_link :
      (ns rest : List String)
      → reverse ns ++ rest ≡ parts
      → (q : FilePath) → canonicalize (reverse (names ns ++ reverse base)) ≡ some q
      → q ≡ reverse (names ns ++ reverse base)
  no_link ns rest h =
      subst (λ (p : FilePath). (q : FilePath) → canonicalize p ≡ some q → q ≡ p)
        (sym (reverse-base ns ∙ ap (λ (p : FilePath). base ++ p) (map-reverse normal ns)))
        (λ q. links (reverse ns) rest q h)

  ascend_plain :
      (ns rest : List String) (tail : FilePath)
      → reverse ns ++ rest ≡ parts
      → ascend canonicalize base (names ns ++ reverse base) tail
        ≡ ok (base ++ (reverse (names ns) ++ tail))
  unfolding ascend
  ascend_plain [] rest tail h = at_base (reverse base) tail (reverse-reverse base)
  ascend_plain (n ∷ ns) rest tail h =
      settle-plain _ (reverse (names (n ∷ ns) ++ reverse base)) tail
        (reverse (names (n ∷ ns)) ++ tail) _ (no_link (n ∷ ns) rest h) refl
        (rw (reverse-base (n ∷ ns), append_assoc))
        (rw (reverse-cons, append_assoc)
          (ascend_plain ns (n ∷ rest) (normal n ∷ tail) (
            sym (append_assoc (reverse ns) (n ∷ []) rest)
            ∙ ap (λ (l : List String). l ++ rest) (sym (reverse-cons n ns))
            ∙ h)))

  contained_plain : contained canonicalize base (base ++ names parts) ≡ ok (base ++ names parts)
  unfolding contained
  contained_plain = rw real (whole (canonicalize (base ++ names parts)) refl)
    where
      slow : ascend canonicalize base (reverse (base ++ names parts)) [] ≡ ok (base ++ names parts)
      slow =
          rw (reverse-append, map-reverse normal parts)
            (ascend_plain (reverse parts) [] []
                (append-nil (reverse (reverse parts)) ∙ reverse-reverse parts)
              ∙ ap (λ (p : FilePath). ok (base ++ p))
                  (append-nil (reverse (names (reverse parts)))
                    ∙ ap reverse (sym (map-reverse normal parts))
                    ∙ reverse-reverse (names parts)))

      whole :
          (o : Option FilePath)
          → canonicalize (base ++ names parts) ≡ o
          → settle_whole base o (ascend canonicalize base (reverse (base ++ names parts)) [])
            ≡ ok (base ++ names parts)
      whole none e = slow
      whole (some q) e = rw (links parts [] q (append-nil parts) e) (within-base (names parts))

  -- Let the root exist and be its own real path, and let no link stand on the way from it down to the
  -- names of a path that does not climb. Then the path resolves in the scope of that one root to the
  -- root followed by these names, whether or not it exists.
  pub resolve_plain :
      (v : FilePath)
      → normalize v ≡ ok parts
      → resolve canonicalize (single base) v ≡ ok (base ++ names parts)
  unfolding resolve single
  resolve_plain v e = rw (e, join_all-names) contained_plain
