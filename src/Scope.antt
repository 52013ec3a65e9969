-- ===== src/Scope.antt =====
-- src/paths.rs: the scope of an account and the jail around it. `canonicalize` is the operating
-- system's `realpath` at the moment of the call: `none` where it fails.
pub mod Jail
pub mod Exact
mod Examples
use ftp_reolink.Base.{
  ℕ, ◌≡◌, String, Bool, true, false, Option, none, some, List, [], ◌∷◌, ◌++◌, Result, ok, err,
  ok_or, ◌>>=◌, if◌then◌else◌,
}
use mathlib.Core.List.{reverse, foldl}
use ftp_reolink.Base.Dict.{Dict, lookup, keys}
use ftp_reolink.Path.{
  Component, FilePath, root_dir, cur_dir, parent_dir, prefix, normal, join_name, starts_with,
}

pub data PathError : Type 0 where
  traversal not_found outside_scope : PathError

pub record ScopeMap : Type 0 where
  pub roots : Dict FilePath
  pub single_root : Option FilePath

unfoldable pub single : FilePath → ScopeMap
single root = record { roots = []; single_root = some root }

unfoldable pub multi : Dict FilePath → ScopeMap
multi roots = record { roots = roots; single_root = none }

unfoldable pub list_root : ScopeMap → List String
list_root m = keys m.roots

unfoldable pub normalize : FilePath → Result PathError (List String)
normalize [] = ok []
normalize (root_dir ∷ p) = normalize p
normalize (cur_dir ∷ p) = normalize p
normalize (normal s ∷ p) = do out ← normalize p; ok (s ∷ out)
normalize (parent_dir ∷ p) = err traversal
normalize (prefix s ∷ p) = err traversal

-- `parts.fold(base, |acc, p| acc.join(p))`
abbrev pub join_all : FilePath → List String → FilePath
join_all = foldl join_name

abbrev pub within : FilePath → FilePath → Result PathError FilePath
within base_c resolved = if starts_with resolved base_c then ok resolved else err traversal

-- One turn of the loop: containment is checked where the ancestor resolves.
abbrev pub settle :
    FilePath → Option FilePath → FilePath → Result PathError FilePath → Result PathError FilePath
settle base_c (some canon) tail above = within base_c (canon ++ tail)
settle base_c none tail above = above

-- The fast path: the whole candidate resolves.
abbrev pub settle_whole :
    FilePath → Option FilePath → Result PathError FilePath → Result PathError FilePath
settle_whole base_c (some resolved) slow = within base_c resolved
settle_whole base_c none slow = slow

module _ (canonicalize : FilePath → Option FilePath) where
  -- The loop of `contained`: the ancestor is held with its last component first, and `above` is
  -- what the loop does after `pop`.
  unfoldable pub ascend : FilePath → List Component → FilePath → Result PathError FilePath
  ascend base_c [] tail = settle base_c (canonicalize []) tail (err not_found)
  ascend base_c (normal name ∷ ancestor) tail =
      let above = ascend base_c ancestor (normal name ∷ tail) in
      settle base_c (canonicalize (reverse (normal name ∷ ancestor))) tail above
  ascend base_c (c ∷ ancestor) tail =
      settle base_c (canonicalize (reverse (c ∷ ancestor))) tail (err not_found)

  unfoldable pub contained : FilePath → FilePath → Result PathError FilePath
  contained base candidate = do
    base_c ← ok_or (canonicalize base) not_found
    settle_whole base_c (canonicalize candidate) (ascend base_c (reverse candidate) [])

  -- The rest of `resolve` in a scope of several roots.
  unfoldable pub resolve_multi : Dict FilePath → List String → Result PathError FilePath
  resolve_multi roots [] = err outside_scope
  resolve_multi roots (cam ∷ rest) = do
    base ← ok_or (lookup cam roots) outside_scope
    contained base (join_all base rest)

  unfoldable pub resolve : ScopeMap → FilePath → Result PathError FilePath
  unfolding resolve_multi
  resolve m virtual_path = do
    parts ← normalize virtual_path
    elim m.single_root [
      | some base ↦ contained base (join_all base parts)
      | none ↦ resolve_multi m.roots parts
    ]
