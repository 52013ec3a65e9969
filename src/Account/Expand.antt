-- ===== src/Account/Expand.antt =====
-- About `expand_scope` of src/account.rs.
use mathlib.Core.Path.{subst}
use ftp_reolink.Base.{
  ◌≡◌, ◌≢◌, string_dec, refl, sym, ◌∙◌, String, Bool, true, false, ◌||◌, Option, none, some, List,
  [], ◌∷◌, arith, All, Option-cases, inl, inr, string_eq, contains, ◌==◌, ok, if◌then◌else◌,
}
use ftp_reolink.Base.Dict.{Dict, lookup, insert, keys, lookup-insert, lookup-nil, contains-keys}
use ftp_reolink.Path.{FilePath, join, path_of}
use ftp_reolink.Scope.{multi}
use ftp_reolink.Config.{Config, ViewerCfg, Scope, all, listed, validate, contains_key}
use ftp_reolink.Config.Valid.{
  MembersKnown, ScopesKnown, ItemsKnown, ScopeKnown, camera_names, IsValid, validate-IsValid,
}
use ftp_reolink.Account.{NameSet, item_names, add_names, collect_names, roots_of, expand_scope}

-- What an item gives, by what the configuration has under it as a group: a group gives the names of
-- its members, and an item that is no group gives itself.
abbrev pub gives : Option (List String) → String → String → Bool
gives none it n = it == n
gives (some members) it n = contains members n

-- Some item of the scope gives `n`.
abbrev pub grants : Dict (List String) → List String → String → Bool
grants groups [] n = false
grants groups (it ∷ items) n = gives (lookup it groups) it n || grants groups items n

contains-item_names :
    (groups : Dict (List String)) (it n : String)
    → contains (item_names groups it) n ≡ gives (lookup it groups) it n
unfolding item_names
contains-item_names groups it n = elim (Option-cases (lookup it groups)) [
  | inl no_group ↦ rw (no_group, item_names) (ground (arith, string_eq))
  | inr (members, found) ↦ rw (found, item_names) refl
]

lookup-add_names :
    (names : List String) (set : NameSet) (n : String)
    → lookup n (add_names names set) ≡ (if contains names n then some tt else lookup n set)
unfolding add_names
lookup-add_names [] set n = refl
lookup-add_names (m ∷ names) set n =
    lookup-add_names names (insert m tt set) n ∙ ground (arith, lookup-insert n m tt set)

lookup-collect_names :
    (groups : Dict (List String)) (items : List String) (set : NameSet) (n : String)
    → lookup n (collect_names groups items set)
      ≡ (if grants groups items n then some tt else lookup n set)
unfolding collect_names
lookup-collect_names groups [] set n = refl
lookup-collect_names groups (it ∷ items) set n =
    lookup-collect_names groups items (add_names (item_names groups it) set) n
    ∙ ground (arith, lookup-add_names (item_names groups it) set n, contains-item_names groups it n)

lookup-roots_of :
    (root : FilePath) (names : List String) (roots : Dict FilePath) (n : String)
    → lookup n (roots_of root names roots)
      ≡ (if contains names n then some (join root (path_of n)) else lookup n roots)
unfolding roots_of
lookup-roots_of root [] roots n = refl
lookup-roots_of root (m ∷ names) roots n =
    lookup-roots_of root names (insert m (join root (path_of m)) roots) n
    ∙ ground (arith, lookup-insert n m (join root (path_of m)) roots)

-- A listed scope gives a name a root exactly when an item of the scope is a group that holds the
-- name, or is no group and is the name itself; and then the root is the directory of that name below
-- the archive.
pub lookup-expand_scope :
    (root : FilePath) (groups : Dict (List String)) (items : List String) (n : String)
    → lookup n (expand_scope root groups (listed items)).roots
      ≡ (if grants groups items n then some (join root (path_of n)) else none)
unfolding expand_scope multi
lookup-expand_scope root groups items n =
    let set = collect_names groups items [] in
    lookup-roots_of root (keys set) [] n
    ∙ ground (
      arith,
      contains-keys set n,
      lookup-collect_names groups items [] n,
      lookup-nil {V = FilePath} n,
      lookup-nil {V = Unit {0}} n,
    )

All-contains :
    (P : String → Type 0) (xs : List String) (n : String) → All P xs → contains xs n ≡ true → P n
All-contains P [] n h e = cc
All-contains P (x ∷ xs) n h e = elim (string_dec n x) [
  | yes p ↦ subst P (sym p) h.0
  | no q ↦ All-contains P xs n h.1 (ground arith)
]

members_known :
    (names : List String) (groups : Dict (List String)) (it : String) (members : List String)
    → MembersKnown names groups
    → lookup it groups ≡ some members
    → All (λ m. contains names m ≡ true) members
unfolding lookup
members_known names [] it members h e = cc
members_known names ((g, ms) ∷ groups) it members h e = elim (string_dec g it) [
  | yes p ↦ subst (λ (l : List String). All (λ m. contains names m ≡ true) l) (ground arith) h.0
  | no q ↦ members_known names groups it members h.1 (ground arith)
]

item_known :
    (names : List String) (groups : Dict (List String)) (it n : String)
    → MembersKnown names groups
    → (contains names it || contains_key it groups) ≡ true
    → gives (lookup it groups) it n ≡ true
    → contains names n ≡ true
item_known names groups it n h k e = elim (Option-cases (lookup it groups)) [
  | inl none_there ↦ ground arith
  | inr (members, found) ↦
      All-contains (λ m. contains names m ≡ true) members n
        (members_known names groups it members h found) (rw found at e)
]

grants_known :
    (names : List String) (groups : Dict (List String)) (items : List String) (n : String)
    → MembersKnown names groups
    → ItemsKnown names groups items
    → grants groups items n ≡ true
    → contains names n ≡ true
grants_known names groups [] n h k e = cc
grants_known names groups (it ∷ items) n h k e =
    ground (arith, item_known names groups it n h k.0, grants_known names groups items n h k.1)

-- The scope of a viewer, under what validation found of it.
abbrev pub GrantsCamera : Config → Scope → Type 0
GrantsCamera cfg all = Unit
GrantsCamera cfg (listed items) =
    (n : String)
    → lookup n (expand_scope cfg.archive.root cfg.group (listed items)).roots ≢ none
    → contains (camera_names cfg.camera) n ≡ true

scopes_granted :
    (cfg : Config) (valid : IsValid cfg) (vs : List ViewerCfg)
    → ScopesKnown valid.names cfg.group vs
    → All (λ v. GrantsCamera cfg v.scope) vs
scopes_granted cfg valid [] h = tt
scopes_granted cfg valid (v ∷ vs) h = (scope_granted v.scope h.0, scopes_granted cfg valid vs h.1)
  where
    scope_granted : (s : Scope) → ScopeKnown valid.names cfg.group s → GrantsCamera cfg s
    scope_granted all k = tt
    scope_granted (listed items) k = λ n given.
        sym (valid.is_names n)
        ∙ grants_known valid.names cfg.group items n valid.members k
            (ground (arith, lookup-expand_scope cfg.archive.root cfg.group items n))

-- In a configuration that validation accepts, every root that a viewer's listed scope grants
-- stands under the name of a configured camera.
expand_scope_cameras :
    {Recipient : Type 0} (parse_recipient : String → Option Recipient) (cfg : Config)
    → validate parse_recipient cfg ≡ ok tt
    → All (λ v. GrantsCamera cfg v.scope) cfg.viewer
expand_scope_cameras parse_recipient cfg h =
    let valid = validate-IsValid parse_recipient cfg h in
    scopes_granted cfg valid cfg.viewer valid.scopes
