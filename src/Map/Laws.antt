-- ===== src/Map/Laws.antt =====
-- What the map operations do to lookups, to the number of entries, and to the uniqueness of keys.
use blackstone.Prelude.{◌+◌, ◌≡◌, refl, true, none, some, [], ◌∷◌, arith, length, if◌then◌else◌}
use blackstone.Map.Defs.{Key, ◌==◌, Map, find, contains, place, replace, insert, erase, IsMap}

pub beq_refl {ℓ} : {K : Type ℓ} ⦃key : Key K⦄ (k : K) → (k == k) ≡ true
beq_refl ⦃key⦄ k = (key.beq_iff k k).1 refl

module _ {ℓ κ} {K : Type ℓ} {V : Type κ} ⦃key : Key K⦄ where
  find-place :
      (k j : K) (v : V) (m : Map K V)
      → find k m ≡ none
      → find j (place k v m) ≡ (if k == j then some v else find j m)
  unfolding find place
  find-place k j v [] h = refl
  find-place k j v (e ∷ m) h =
      ground (arith, find-place k j v m, key.beq_iff e.0 k, key.beq_iff e.0 j, key.beq_iff k j)

  find-replace :
      (k j : K) (v : V) (m : Map K V)
      → contains k m ≡ true
      → find j (replace k v m) ≡ (if k == j then some v else find j m)
  unfolding find replace
  find-replace k j v [] h = ground arith
  find-replace k j v (e ∷ m) h =
      ground (arith, find-replace k j v m, key.beq_iff e.0 k, key.beq_iff e.0 j, key.beq_iff k j)

  pub find-insert :
      (k j : K) (v : V) (m : Map K V)
      → find j (insert k v m) ≡ (if k == j then some v else find j m)
  unfolding insert
  find-insert k j v m = ground (arith, find-replace k j v m, find-place k j v m)

  pub find-erase :
      (k j : K) (m : Map K V) → find j (erase k m) ≡ (if k == j then none else find j m)
  unfolding find erase
  find-erase k j [] = ground arith
  find-erase k j (e ∷ m) =
      ground (arith, find-erase k j m, key.beq_iff e.0 k, key.beq_iff e.0 j, key.beq_iff k j)

  length-place : (k : K) (v : V) (m : Map K V) → length (place k v m) ≡ length m + 1
  unfolding place
  length-place k v [] = omega arith
  length-place k v (e ∷ m) = ground (arith, length-place k v m)

  length-replace : (k : K) (v : V) (m : Map K V) → length (replace k v m) ≡ length m
  unfolding replace
  length-replace k v [] = refl
  length-replace k v (e ∷ m) = ground (arith, length-replace k v m)

  pub length-insert :
      (k : K) (v : V) (m : Map K V)
      → length (insert k v m) ≡ (if contains k m then length m else length m + 1)
  unfolding insert
  length-insert k v m = ground (arith, length-place k v m, length-replace k v m)

  erase_absent : (k : K) (m : Map K V) → find k m ≡ none → erase k m ≡ m
  unfolding find erase
  erase_absent k [] h = refl
  erase_absent k (e ∷ m) h = ground (arith, erase_absent k m)

  pub length-erase :
      (k : K) (m : Map K V)
      → IsMap m
      → length (erase k m) + (if contains k m then 1 else 0) ≡ length m
  unfolding find erase
  length-erase k [] h = ground arith
  length-erase k (e ∷ m) h =
      ground (arith, length-erase k m h.1, key.beq_iff e.0 k, erase_absent k m)

  pub erase-IsMap : (k : K) (m : Map K V) → IsMap m → IsMap (erase k m)
  unfolding erase
  erase-IsMap k [] h = tt
  erase-IsMap k (e ∷ m) h = ground (arith, erase-IsMap k m h.1, find-erase k e.0 m)

  place-IsMap : (k : K) (v : V) (m : Map K V) → find k m ≡ none → IsMap m → IsMap (place k v m)
  unfolding place find
  place-IsMap k v [] n h = (refl, tt)
  place-IsMap k v (e ∷ m) n h =
      ground (arith, place-IsMap k v m, find-place k e.0 v m, key.beq_iff e.0 k, key.beq_iff k e.0)

  replace-IsMap :
      (k : K) (v : V) (m : Map K V) → contains k m ≡ true → IsMap m → IsMap (replace k v m)
  unfolding replace find
  replace-IsMap k v [] n h = tt
  replace-IsMap k v (e ∷ m) n h =
      ground
        (arith, replace-IsMap k v m, find-replace k e.0 v m, key.beq_iff e.0 k, key.beq_iff k e.0)

  pub insert-IsMap : (k : K) (v : V) (m : Map K V) → IsMap m → IsMap (insert k v m)
  unfolding insert
  insert-IsMap k v m h = ground (arith, place-IsMap k v m, replace-IsMap k v m)

  pub find-insert_self : (k : K) (v : V) (m : Map K V) → find k (insert k v m) ≡ some v
  find-insert_self k v m = rw (find-insert k k v m, beq_refl k)

  pub find-erase_self : (k : K) (m : Map K V) → find k (erase k m) ≡ none
  find-erase_self k m = rw (find-erase k k m, beq_refl k)
