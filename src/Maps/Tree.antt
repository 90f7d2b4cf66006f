-- ===== src/Maps/Tree.antt =====
-- `BTreeMap`: keys in rising order of their rank, which stands for the key type's `Ord`.
use proxybroker_rs.Prelude.{
  Bool, List, Option, [], arith, if◌then◌else◌, is_some, ltb, none, refl, some, ℕ, ◌∷◌, ◌≡◌,
}
use proxybroker_rs.Prelude.Equality.{list_eq, nat_eq, ◌==◌}

pub record Ranked {ℓ} (K : Type ℓ) : Type ℓ where
  pub rank : K → ℕ

pub record IsRanked {ℓ} (K : Type ℓ) ⦃r : Ranked K⦄ : Type ℓ where
  pub rank_injective : (k j : K) → r.rank k ≡ r.rank j → k ≡ j

abbrev pub TreeMap : Type 0 → Type 0 → Type 0
TreeMap K V = List (K × V)

module _ {K V : Type 0} ⦃r : Ranked K⦄ where
  unfoldable pub tree_get : K → TreeMap K V → Option V
  tree_get k [] = none
  tree_get k ((j, v) ∷ m) = if r.rank j == r.rank k then some v else tree_get k m

  unfoldable pub tree_has : K → TreeMap K V → Bool
  unfolding tree_get
  tree_has k m = is_some (tree_get k m)

  unfoldable pub tree_insert : K → V → TreeMap K V → TreeMap K V
  tree_insert k v [] = (k, v) ∷ []
  tree_insert k v ((j, w) ∷ m) =
      let later = (j, w) ∷ tree_insert k v m in
      if ltb (r.rank k) (r.rank j)
      then (k, v) ∷ (j, w) ∷ m
      else if r.rank k == r.rank j
      then (k, v) ∷ m
      else later

  unfoldable pub tree_remove : K → TreeMap K V → TreeMap K V
  tree_remove k [] = []
  tree_remove k ((j, w) ∷ m) =
      if r.rank j == r.rank k then tree_remove k m else (j, w) ∷ tree_remove k m

  pub tree_get-insert :
      (k j : K) (v : V) (m : TreeMap K V)
      → tree_get j (tree_insert k v m) ≡ (if r.rank k == r.rank j then some v else tree_get j m)
  unfolding tree_get tree_insert
  tree_get-insert k j v [] = refl
  tree_get-insert k j v ((i, w) ∷ m) = ground (arith, tree_get-insert k j v m)

  pub tree_get-remove :
      (k j : K) (m : TreeMap K V)
      → tree_get j (tree_remove k m) ≡ (if r.rank k == r.rank j then none else tree_get j m)
  unfolding tree_get tree_remove
  tree_get-remove k j [] = ground arith
  tree_get-remove k j ((i, w) ∷ m) = ground (arith, tree_get-remove k j m)

  pub tree_get-same_rank :
      (k j : K) (m : TreeMap K V) → r.rank k ≡ r.rank j → tree_get k m ≡ tree_get j m
  unfolding tree_get
  tree_get-same_rank k j [] e = refl
  tree_get-same_rank k j ((i, v) ∷ m) e = ground (arith, tree_get-same_rank k j m e)
