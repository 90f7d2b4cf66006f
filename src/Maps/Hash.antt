-- ===== src/Maps/Hash.antt =====
-- `HashMap`: a key once, in no promised order.
use proxybroker_rs.Prelude.{
  Bool, List, Option, [], arith, false, if◌then◌else◌, is_some, length, none, refl, some, suc, true,
  ◌<◌, ◌∷◌, ◌≡◌, ◌≤◌,
}
use proxybroker_rs.Prelude.Equality.{Eq, list_eq, nat_eq, ◌==◌}

abbrev pub HashMap : Type 0 → Type 0 → Type 0
HashMap K V = List (K × V)

module _ {K V : Type 0} ⦃e : Eq K⦄ where
  unfoldable pub hash_get : K → HashMap K V → Option V
  hash_get k [] = none
  hash_get k ((j, v) ∷ m) = if j == k then some v else hash_get k m

  unfoldable pub hash_has : K → HashMap K V → Bool
  unfolding hash_get
  hash_has k m = is_some (hash_get k m)

  unfoldable pub hash_insert : K → V → HashMap K V → HashMap K V
  hash_insert k v [] = (k, v) ∷ []
  hash_insert k v ((j, w) ∷ m) = if j == k then (k, v) ∷ m else (j, w) ∷ hash_insert k v m

  unfoldable pub hash_remove : K → HashMap K V → HashMap K V
  hash_remove k [] = []
  hash_remove k ((j, w) ∷ m) = if j == k then hash_remove k m else (j, w) ∷ hash_remove k m

  pub hash_get-insert :
      (k j : K) (v : V) (m : HashMap K V)
      → hash_get j (hash_insert k v m) ≡ (if k == j then some v else hash_get j m)
  unfolding hash_get hash_insert
  hash_get-insert k j v [] = refl
  hash_get-insert k j v ((i, w) ∷ m) = ground (arith, hash_get-insert k j v m)

  pub hash_get-remove :
      (k j : K) (m : HashMap K V)
      → hash_get j (hash_remove k m) ≡ (if k == j then none else hash_get j m)
  unfolding hash_get hash_remove
  hash_get-remove k j [] = ground arith
  hash_get-remove k j ((i, w) ∷ m) = ground (arith, hash_get-remove k j m)

  -- An insertion under a new key adds one entry, and one under an old key none.
  pub length-hash_insert :
      (k : K) (v : V) (m : HashMap K V)
      → length (hash_insert k v m) ≡ (if hash_has k m then length m else suc (length m))
  unfolding hash_has hash_insert
  length-hash_insert k v [] = refl
  length-hash_insert k v ((i, w) ∷ m) = ground (arith, length-hash_insert k v m)

  pub length-hash_remove-le : (k : K) (m : HashMap K V) → length (hash_remove k m) ≤ length m
  unfolding hash_remove
  length-hash_remove-le k [] = omega arith
  length-hash_remove-le k ((j, w) ∷ m) = ground (arith, length-hash_remove-le k m)

  pub length-hash_remove-lt :
      (k : K) (m : HashMap K V) → hash_has k m ≡ true → length (hash_remove k m) < length m
  unfolding hash_remove hash_has
  length-hash_remove-lt k [] h = cc
  length-hash_remove-lt k ((j, w) ∷ m) h =
      ground (arith, length-hash_remove-lt k m, length-hash_remove-le k m)

  pub hash_has-insert :
      (k j : K) (v : V) (m : HashMap K V)
      → hash_has j (hash_insert k v m) ≡ (if k == j then true else hash_has j m)
  unfolding hash_has
  hash_has-insert k j v m = ground (arith, hash_get-insert k j v m)

  pub hash_has-remove :
      (k j : K) (m : HashMap K V)
      → hash_has j (hash_remove k m) ≡ (if k == j then false else hash_has j m)
  unfolding hash_has
  hash_has-remove k j m = ground (arith, hash_get-remove k j m)
