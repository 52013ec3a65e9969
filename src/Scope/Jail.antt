-- ===== src/Scope/Jail.antt =====
-- About `resolve` of src/paths.rs: the jail.
use ftp_reolink.Base.{
  ◌≡◌, refl, ◌⊎◌, inl, inr, String, true, false, Option, none, some, List, [], ◌∷◌, ◌++◌, arith,
  Result, ok, err, ok_or, >>=-eq-ok, Bool, Bool-cases,
}
use ftp_reolink.Base.Dict.{lookup}
use ftp_reolink.Path.{
  Component, FilePath, root_dir, cur_dir, parent_dir, prefix, normal, starts_with, component_eq,
}
use ftp_reolink.Path.Laws.{Below, starts_with-Below}
use ftp_reolink.Scope.{
  settle, settle_whole, PathError, traversal, not_found, outside_scope, ScopeMap, normalize, within,
  join_all, ascend, contained, resolve_multi, resolve,
}

-- `base` is a root that the scope grants to a request for `parts`.
abbrev pub Grants : ScopeMap → List String → FilePath → Type 0
Grants m parts base =
    (m.single_root ≡ some base)
    ⊎ ((m.single_root ≡ none)
        × ((cam : String) × (rest : List String) × (parts ≡ cam ∷ rest)
            × (lookup cam m.roots ≡ some base)))

-- The path climbs: it has a `..` or a drive prefix.
abbrev pub climbs : FilePath → Bool
climbs [] = false
climbs (parent_dir ∷ p) = true
climbs (prefix s ∷ p) = true
climbs (root_dir ∷ p) = climbs p
climbs (cur_dir ∷ p) = climbs p
climbs (normal s ∷ p) = climbs p

ok_or-eq-ok : {E A : Type 0} (o : Option A) (e : E) {a : A} → ok_or o e ≡ ok a → o ≡ some a
ok_or-eq-ok none e h = cc
ok_or-eq-ok (some b) e h = cc

within-Below : (base_c p r : FilePath) → within base_c p ≡ ok r → Below base_c r
within-Below base_c p r h = elim (Bool-cases (starts_with p base_c)) [
  | inl e ↦ let (rest, q) = starts_with-Below p base_c e in (rest, ground arith)
  | inr e ↦ cc (rw e at h)
]

settle-Below :
    (base_c : FilePath) (o : Option FilePath) (tail r : FilePath)
    (above : Result PathError FilePath)
    → (above ≡ ok r → Below base_c r)
    → settle base_c o tail above ≡ ok r
    → Below base_c r
settle-Below base_c (some canon) tail r above f h = within-Below base_c (canon ++ tail) r h
settle-Below base_c none tail r above f h = f h

settle_whole-Below :
    (base_c : FilePath) (o : Option FilePath) (r : FilePath) (slow : Result PathError FilePath)
    → (slow ≡ ok r → Below base_c r)
    → settle_whole base_c o slow ≡ ok r
    → Below base_c r
settle_whole-Below base_c (some p) r slow f h = within-Below base_c p r h
settle_whole-Below base_c none r slow f h = f h

module _ (canonicalize : FilePath → Option FilePath) where
  ascend-Below :
      (base_c : FilePath) (anc : List Component) (tail r : FilePath)
      → ascend canonicalize base_c anc tail ≡ ok r
      → Below base_c r
  unfolding ascend
  ascend-Below base_c [] tail r h = settle-Below base_c _ tail r (err not_found) (λ e. cc) h
  ascend-Below base_c (normal name ∷ anc) tail r h =
      settle-Below base_c _ tail r _ (ascend-Below base_c anc (normal name ∷ tail) r) h
  ascend-Below base_c (c ∷ anc) tail r h = settle-Below base_c _ tail r (err not_found) (λ e. cc) h

  pub contained-Below :
      (base candidate r : FilePath)
      → contained canonicalize base candidate ≡ ok r
      → (base_c : FilePath) × (canonicalize base ≡ some base_c) × Below base_c r
  unfolding contained
  contained-Below base candidate r h =
      let (base_c, found, rest) = >>=-eq-ok (ok_or (canonicalize base) not_found) _ h in
      (
        base_c,
        ok_or-eq-ok (canonicalize base) not_found found,
        settle_whole-Below base_c _ r _ (ascend-Below base_c _ [] r) rest,
      )

  -- `r` lies at or below the real place `base_c` of a root that the scope grants to the request.
  pub record InScope (m : ScopeMap) (parts : List String) (r : FilePath) : Type 0 where
    pub base : FilePath
    pub base_c : FilePath
    pub granted : Grants m parts base
    pub real : canonicalize base ≡ some base_c
    pub below : Below base_c r

  resolve_multi_granted :
      (m : ScopeMap) (parts : List String) (r : FilePath)
      → m.single_root ≡ none
      → resolve_multi canonicalize m.roots parts ≡ ok r
      → InScope m parts r
  unfolding resolve_multi
  resolve_multi_granted m [] r e h = cc
  resolve_multi_granted m (cam ∷ rest) r e h =
      let (base, found, inside) = >>=-eq-ok (ok_or (lookup cam m.roots) outside_scope) _ h in
      let (base_c, real, below) = contained-Below base (join_all base rest) r inside in
      record {
        base = base;
        base_c = base_c;
        granted = inr (e, (cam, rest, refl, ok_or-eq-ok (lookup cam m.roots) outside_scope found));
        real = real;
        below = below;
      }

  resolve_granted :
      (m : ScopeMap) (o : Option FilePath) (parts : List String) (r : FilePath)
      → m.single_root ≡ o
      → (elim o [
        | some base ↦ contained canonicalize base (join_all base parts)
        | none ↦ resolve_multi canonicalize m.roots parts
      ])
        ≡ ok r
      → InScope m parts r
  resolve_granted m none parts r e h = resolve_multi_granted m parts r e h
  resolve_granted m (some base) parts r e h =
      let (base_c, real, below) = contained-Below base (join_all base parts) r h in
      record { base = base; base_c = base_c; granted = inl e; real = real; below = below }

  -- Whatever the file system's links are, a path that resolves lies at or below the real place
  -- of a root that the scope grants to the request: the single root, or the root listed under the
  -- request's first name.
  pub resolve-Below :
      (m : ScopeMap) (v r : FilePath)
      → resolve canonicalize m v ≡ ok r
      → (parts : List String) × (normalize v ≡ ok parts) × InScope m parts r
  unfolding resolve
  resolve-Below m v r h =
      let (parts, names, rest) = >>=-eq-ok (normalize v) _ h in
      (parts, names, resolve_granted m m.single_root parts r refl rest)

normalize-climbs : (v : FilePath) → climbs v ≡ true → normalize v ≡ err traversal
unfolding normalize
normalize-climbs [] h = cc
normalize-climbs (root_dir ∷ v) h = normalize-climbs v h
normalize-climbs (cur_dir ∷ v) h = normalize-climbs v h
normalize-climbs (parent_dir ∷ v) h = refl
normalize-climbs (prefix s ∷ v) h = refl
normalize-climbs (normal s ∷ v) h = rw (normalize-climbs v h)

normalize_level :
    (v : FilePath) → climbs v ≡ false → (parts : List String) × (normalize v ≡ ok parts)
unfolding normalize
normalize_level [] h = ([], refl)
normalize_level (root_dir ∷ v) h = normalize_level v h
normalize_level (cur_dir ∷ v) h = normalize_level v h
normalize_level (parent_dir ∷ v) h = cc
normalize_level (prefix s ∷ v) h = cc
normalize_level (normal s ∷ v) h = let (parts, e) = normalize_level v h in (s ∷ parts, rw e)

-- A path that holds a `..` or a drive prefix anywhere is refused as a traversal before the file
-- system is asked, in every scope.
pub resolve-climbs :
    (canonicalize : FilePath → Option FilePath) (m : ScopeMap) (v : FilePath)
    → climbs v ≡ true
    → resolve canonicalize m v ≡ err traversal
unfolding resolve
resolve-climbs canonicalize m v h = rw (normalize-climbs v h)

-- In a scope of several roots a request whose path does not climb is outside the scope when it
-- names no camera, or a camera that is not listed.
resolve_unlisted :
    (canonicalize : FilePath → Option FilePath) (m : ScopeMap) (v : FilePath) (parts : List String)
    → m.single_root ≡ none
    → normalize v ≡ ok parts
    → ((cam : String) (rest : List String) → parts ≡ cam ∷ rest → lookup cam m.roots ≡ none)
    → resolve canonicalize m v ≡ err outside_scope
unfolding resolve resolve_multi
resolve_unlisted canonicalize m v [] e n h = rw (n, e)
resolve_unlisted canonicalize m v (cam ∷ rest) e n h = rw (n, e, h cam rest refl)
