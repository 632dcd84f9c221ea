-- ===== src/Map/Sums.antt =====
-- Sums over the values of a map.
use blackstone.Prelude.{ℕ, ◌+◌, ◌≤◌, ◌≡◌, true, Option, none, some, [], ◌∷◌, arith}
use blackstone.Map.Defs.{Key, Map, find, contains, place, replace, insert, erase, IsMap}

module _ {ℓ κ} {K : Type ℓ} {V : Type κ} (f : V → ℕ) where
  abbrev pub sum_of : Map K V → ℕ
  sum_of [] = 0
  sum_of (e ∷ m) = f e.1 + sum_of m

module _ {κ} {V : Type κ} (f : V → ℕ) where
  abbrev pub value_at : Option V → ℕ
  value_at none = 0
  value_at (some v) = f v

module _ {ℓ κ} {K : Type ℓ} {V : Type κ} ⦃key : Key K⦄ (f : V → ℕ) where
  sum_of-place : (k : K) (v : V) (m : Map K V) → sum_of f (place k v m) ≡ sum_of f m + f v
  unfolding place
  sum_of-place k v [] = omega arith
  sum_of-place k v (e ∷ m) = ground (arith, sum_of-place k v m)

  sum_of-replace :
      (k : K) (v : V) (m : Map K V)
      → contains k m ≡ true
      → sum_of f (replace k v m) + value_at f (find k m) ≡ sum_of f m + f v
  unfolding replace find
  sum_of-replace k v [] h = ground arith
  sum_of-replace k v (e ∷ m) h = ground (arith, sum_of-replace k v m)

  pub sum_of-insert :
      (k : K) (v : V) (m : Map K V)
      → sum_of f (insert k v m) + value_at f (find k m) ≡ sum_of f m + f v
  unfolding insert
  sum_of-insert k v m = ground (arith, sum_of-place k v m, sum_of-replace k v m)

  pub sum_of-erase :
      (k : K) (m : Map K V) → IsMap m → sum_of f (erase k m) + value_at f (find k m) ≡ sum_of f m
  unfolding erase find
  sum_of-erase k [] h = omega arith
  sum_of-erase k (e ∷ m) h = ground (arith, sum_of-erase k m h.1, key.beq_iff e.0 k)

  pub value_at-le : (k : K) (m : Map K V) → value_at f (find k m) ≤ sum_of f m
  unfolding find
  value_at-le k [] = omega arith
  value_at-le k (e ∷ m) = ground (arith, value_at-le k m)
