-- ===== src/Merkle/Proof.antt =====
-- Proofs of membership: which ones verify, and which ones do not.
use native.Mathlib.Nat.{pow-suc}
use blackstone.Prelude.{
  ℕ, zero, suc, ◌+◌, ◌-◌, ◌*◌, ◌/◌, ◌%◌, ◌^◌, ◌≤◌, ◌<◌, ◌≡◌, refl, Bool, true, false, ◌&&◌, ◌≢◌,
  some, List, [], ◌∷◌, arith, eqb, ltb, leb, if◌then◌else◌, length, get_elem?, get_elem?-some,
  get_elem?-lt, Bool-cases, inl, inr, ◌∙◌,
}
use blackstone.Map.{Key}
use blackstone.Merkle.{
  next_level, top, proof_of, compute_proof, sibling_index, first_or, compute_merkle_root, climb,
  verify_proof,
}
use blackstone.Merkle.Levels.{length-next_level}

double : (k : ℕ) → 2 ^ suc k ≡ 2 * 2 ^ k
double k = omega (arith, pow-suc 2 k)

module _ {H : Type 0} (pair : H → H → H) where
  get-next_level :
      (l : List H) (k i j : ℕ) {x y : H}
      → i ≡ 2 * k
      → j ≡ 2 * k + 1
      → get_elem? l i ≡ some x
      → get_elem? l j ≡ some y
      → get_elem? (next_level pair l) k ≡ some (pair x y)
  unfolding next_level
  get-next_level [] k i j p q h g = cc
  get-next_level (a ∷ []) k i j p q h g = absurd (omega (arith, get_elem?-lt (a ∷ []) j g))
  get-next_level (a ∷ b ∷ l) zero zero (suc zero) p q h g = ground arith
  get-next_level (a ∷ b ∷ l) (suc k) (suc (suc i)) (suc (suc j)) p q h g =
      get-next_level l k i j (omega arith) (omega arith) h g
  get-next_level (a ∷ b ∷ l) _ _ _ p q h g = absurd (omega arith)

  parent :
      (l : List H) (i : ℕ) {h s : H}
      → get_elem? l i ≡ some h
      → get_elem? l (sibling_index i) ≡ some s
      → get_elem? (next_level pair l) (i / 2) ≡ some (if eqb (i % 2) 0 then pair h s else pair s h)
  parent l i at by = elim (Bool-cases (eqb (i % 2) 0)) [
    | inl even ↦
        rw even
          (get-next_level l (i / 2) i (i + 1) (ground arith) (ground arith) at (rw even at by))
    | inr odd ↦
        rw odd (get-next_level l (i / 2) (i - 1) i (ground arith) (ground arith) (rw odd at by) at)
  ]

  -- Does the hash at an index have a sibling on its level, and so on up to the top?
  unfoldable pub complete : ℕ → List H → ℕ → Bool
  complete zero l i = true
  complete (suc fuel) l i =
      let rest = complete fuel (next_level pair l) (i / 2) in
      if ltb 1 (length l) then ltb (sibling_index i) (length l) && rest else true

  -- Every level over 2^k hashes is complete.
  complete-pow :
      (fuel k : ℕ) (l : List H) (i : ℕ) → length l ≡ 2 ^ k → i < length l → complete fuel l i ≡ true
  unfolding complete
  complete-pow zero k l i e h = refl
  complete-pow (suc fuel) zero l i e h = ground arith
  complete-pow (suc fuel) (suc k) l i e h =
      let twice : length l ≡ 2 * 2 ^ k = e ∙ double k in
      let half : length (next_level pair l) ≡ 2 ^ k = omega (arith, length-next_level pair l) in
      ground (arith, complete-pow fuel k (next_level pair l) (i / 2))

  module _ (empty_hash : H) where
    only :
        (l : List H) (i : ℕ) {h : H}
        → get_elem? l i ≡ some h
        → length l ≡ 1
        → h ≡ first_or pair empty_hash l
    only [] i at e = cc
    only (x ∷ []) zero at e = ground arith
    only (x ∷ []) (suc i) at e = cc
    only (x ∷ y ∷ l) i at e = absurd (omega arith)

    climb-proof_of :
        (fuel : ℕ) (l : List H) (i : ℕ) {h : H}
        → length l ≤ fuel
        → get_elem? l i ≡ some h
        → complete fuel l i ≡ true
        → climb pair h (proof_of pair fuel l i) i ≡ first_or pair empty_hash (top pair fuel l)
    unfolding climb proof_of top complete
    climb-proof_of zero l i short at full = absurd (omega (arith, get_elem?-lt l i at))
    climb-proof_of (suc fuel) l i short at full = elim (Bool-cases (ltb 1 (length l))) [
      | inl more ↦
          let (s, by) = get_elem?-some l (sibling_index i) (ground arith) in
          rw (more, by)
            (climb-proof_of fuel (next_level pair l) (i / 2)
              (ground (arith, length-next_level pair l)) (parent l i at by) (ground arith))
      | inr one ↦ rw one (only l i at (ground (arith, get_elem?-lt l i at)))
    ]

    -- A proof that `computeProof` returns verifies against the root that `computeMerkleRoot`
    -- returns, if the hash at the index has a sibling on its own level and its ancestors have on
    -- theirs.
    pub verify-compute_proof :
        ⦃key : Key H⦄ (leaves : List H) (i : ℕ) {h : H}
        → get_elem? leaves i ≡ some h
        → complete (length leaves) leaves i ≡ true
        → verify_proof pair h
            (compute_proof pair leaves i)
            (compute_merkle_root pair empty_hash leaves)
            i
          ≡ true
    unfolding verify_proof compute_proof compute_merkle_root
    verify-compute_proof ⦃key⦄ leaves i at full =
        let inside : leb (length leaves) i ≡ false = ground (arith, get_elem?-lt leaves i at) in
        rw inside
          ((key.beq_iff _ _).1 (climb-proof_of (length leaves) leaves i (omega arith) at full))

    -- With 2^k leaves, every leaf's computed proof verifies against the computed root.
    pub verify-compute_proof_pow :
        ⦃key : Key H⦄ (k : ℕ) (leaves : List H) (i : ℕ) (h : H)
        → length leaves ≡ 2 ^ k
        → get_elem? leaves i ≡ some h
        → verify_proof pair h
            (compute_proof pair leaves i)
            (compute_merkle_root pair empty_hash leaves)
            i
          ≡ true
    verify-compute_proof_pow k leaves i h e at =
        verify-compute_proof leaves i at
          (complete-pow (length leaves) k leaves i e (get_elem?-lt leaves i at))

    -- The computed proof of the last of three leaves a, b, c does not verify, unless the hashes
    -- of c with ab and of ab with cc collide: on a level of odd length the last hash stands for
    -- its own sibling, and the computed proof leaves that step out.
    pub verify-compute_proof_odd :
        ⦃key : Key H⦄ (a b c : H)
        → pair c (pair a b) ≢ pair (pair a b) (pair c c)
        → verify_proof pair c
            (compute_proof pair (a ∷ b ∷ c ∷ []) 2)
            (compute_merkle_root pair empty_hash (a ∷ b ∷ c ∷ []))
            2
          ≡ false
    unfolding verify_proof compute_proof compute_merkle_root next_level climb
    verify-compute_proof_odd ⦃key⦄ a b c ne =
        elim (Bool-cases (key.beq (pair c (pair a b)) (pair (pair a b) (pair c c)))) [
          | inl same ↦ absurd (ne ((key.beq_iff _ _).0 same))
          | inr other ↦ other
        ]
