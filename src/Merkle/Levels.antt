-- ===== src/Merkle/Levels.antt =====
-- The loops end, and the tree that is stored gives what the static functions compute.
use blackstone.Prelude.{
  ℕ, zero, suc, ◌+◌, ◌/◌, ◌≤◌, ◌<◌, ◌≡◌, refl, List, [], ◌∷◌, ◌++◌, arith, eqb, ltb, leb,
  if◌then◌else◌, length, get_elem?, Bool-cases, inl, inr, ap, ◌∙◌,
}
use blackstone.Merkle.{
  next_level, levels, top, proof_of, compute_proof, walk, push_sibling, sibling_index, MerkleTree,
  first_or, compute_merkle_root, build, build_from, get_proof,
}

module _ {H : Type 0} (pair : H → H → H) where
  pub length-next_level : (l : List H) → length (next_level pair l) ≡ (length l + 1) / 2
  unfolding next_level
  length-next_level [] = refl
  length-next_level (x ∷ []) = refl
  length-next_level (x ∷ y ∷ xs) = omega (arith, length-next_level xs)

  -- The loop ends with a single hash.
  top-length :
      (fuel : ℕ) (l : List H) → 0 < length l → length l ≤ fuel → length (top pair fuel l) ≡ 1
  unfolding top
  top-length zero l h k = absurd (omega arith)
  top-length (suc fuel) l h k = elim (Bool-cases (ltb 1 (length l))) [
    | inl more ↦ rw more (
        top-length fuel (next_level pair l) (ground (arith, length-next_level l))
          (ground (arith, length-next_level l)))
    | inr one ↦ rw one (ground arith)
  ]

  levels_cons : (fuel : ℕ) (l : List H) → (r : List (List H)) × (levels pair fuel l ≡ l ∷ r)
  unfolding levels
  levels_cons zero l = ([], refl)
  levels_cons (suc fuel) l = elim (Bool-cases (ltb 1 (length l))) [
    | inl more ↦ (levels pair fuel (next_level pair l), rw more)
    | inr one ↦ ([], rw one)
  ]

  walk-cons :
      (l l' : List H) (ls r : List (List H)) (i : ℕ)
      → ls ≡ l' ∷ r
      → walk (l ∷ ls) i ≡ push_sibling (get_elem? l (sibling_index i)) ++ walk ls (i / 2)
  unfolding walk
  walk-cons l l' ls r i e = rw e

  walk-levels :
      (fuel : ℕ) (l : List H) (i : ℕ) → walk (levels pair fuel l) i ≡ proof_of pair fuel l i
  unfolding levels proof_of walk
  walk-levels zero l i = refl
  walk-levels (suc fuel) l i = elim (Bool-cases (ltb 1 (length l))) [
    | inl more ↦
        let next = next_level pair l in
        let (r, e) = levels_cons fuel next in
        rw more (
          walk-cons l next (levels pair fuel next) r i e
          ∙ ap (◌++◌ (push_sibling (get_elem? l (sibling_index i))))
              (walk-levels fuel next (i / 2)))
    | inr one ↦ rw one
  ]

  module _ (empty_hash : H) where
    -- After `build`, the tree returns the root and, for every index, the proof that the static
    -- functions compute from its leaves; and their loops end, with one hash at the top.
    pub build-eq-compute :
        (t : MerkleTree H) (i : ℕ)
        → let b = build pair empty_hash t in
          (b.root ≡ compute_merkle_root pair empty_hash t.leaves)
          × (get_proof b i ≡ compute_proof pair t.leaves i)
          × (length (top pair (length t.leaves) t.leaves)
              ≡ (if eqb (length t.leaves) 0 then 0 else 1))
    unfolding build compute_merkle_root compute_proof get_proof
    build-eq-compute t i = go t.leaves refl
      where
        go :
            (ls : List H)
            → t.leaves ≡ ls
            → let b = build_from pair empty_hash t ls in
              (b.root ≡ first_or pair empty_hash (top pair (length ls) ls))
              × (get_proof b i ≡ (if leb (length ls) i then [] else proof_of pair (length ls) ls i))
              × (length (top pair (length ls) ls) ≡ (if eqb (length ls) 0 then 0 else 1))
        go [] e = (refl, rw e (ground arith), refl)
        go (x ∷ xs) e = (
          refl,
          rw (walk-levels (length (x ∷ xs)) (x ∷ xs) i, e) refl,
          ground (arith, top-length (length (x ∷ xs)) (x ∷ xs)),
        )
