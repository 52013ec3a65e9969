-- ===== src/Base/Dict.antt =====
-- `BTreeMap<String, V>` as an association list in the order of the keys. Proofs elsewhere go by
-- the laws; only tests unfold the operations.
use Prim.Native.Nat.{Ordering}
use Prim.Native.String.{compare}
use text.Mathlib.TextEquality.{path_by_compare}
use text.Mathlib.TextPositions.{compare_refl}
use ftp_reolink.Base.{
  ◌≡◌, refl, ap, ◌≢◌, ◌↔◌, String, true, Option, none, some, List, [], ◌∷◌, arith, ◌==◌, string_eq,
  if◌then◌else◌, contains,
}

abbrev pub Dict {ℓ} : Type ℓ → Type ℓ
Dict V = List (String × V)

module _ {ℓ} {V : Type ℓ} where
  -- `BTreeMap::get`
  unfoldable pub lookup : String → Dict V → Option V
  lookup k [] = none
  lookup k ((j, v) ∷ d) = if j == k then some v else lookup k d

  place : String → V → String → V → Dict V → Dict V → Ordering → Dict V
  place k v j w d rest Ordering.lt = (k, v) ∷ (j, w) ∷ d
  place k v j w d rest Ordering.eq = (k, v) ∷ d
  place k v j w d rest Ordering.gt = (j, w) ∷ rest

  -- `BTreeMap::insert`: it replaces the value of a key that is there.
  unfoldable pub insert : String → V → Dict V → Dict V
  unfolding place
  insert k v [] = (k, v) ∷ []
  insert k v ((j, w) ∷ d) = place k v j w d (insert k v d) (compare k j)

  -- `BTreeMap::keys`
  unfoldable pub keys : Dict V → List String
  keys [] = []
  keys ((k, v) ∷ d) = k ∷ keys d

  lookup-place :
      (i k : String) (v : V) (j : String) (w : V) (d rest : Dict V) (o : Ordering)
      → compare k j ≡ o
      → lookup i rest ≡ (if k == i then some v else lookup i d)
      → lookup i (place k v j w d rest o) ≡ (if k == i then some v else lookup i ((j, w) ∷ d))
  unfolding place lookup
  lookup-place i k v j w d rest Ordering.lt e h = refl
  lookup-place i k v j w d rest Ordering.eq e h = ground (arith, path_by_compare k j e)
  lookup-place i k v j w d rest Ordering.gt e h =
      ground (arith, compare_refl k, λ (p : k ≡ j). ap (compare k) p)

  pub lookup-insert :
      (i k : String) (v : V) (d : Dict V)
      → lookup i (insert k v d) ≡ (if k == i then some v else lookup i d)
  unfolding insert
  lookup-insert i k v [] = unfold lookup in refl
  lookup-insert i k v ((j, w) ∷ d) =
      lookup-place i k v j w d (insert k v d) (compare k j) refl (lookup-insert i k v d)

  pub lookup-nil : (k : String) → lookup k (let d : Dict V = [] in d) ≡ none
  unfolding lookup
  lookup-nil k = refl

  -- A key is listed exactly when it has a value.
  pub contains-keys : (d : Dict V) (k : String) → (contains (keys d) k ≡ true) ↔ (lookup k d ≢ none)
  unfolding keys lookup
  contains-keys [] k = (λ h. cc, λ h. absurd (h refl))
  contains-keys (_ ∷ d) k = ground (arith, contains-keys d k)
