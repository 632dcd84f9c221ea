-- ===== src/Merkle/Tests.antt =====
-- Runs of the Merkle tree over numbers, and its theorems at inputs that meet their hypotheses.
use blackstone.Prelude.{ℕ, ◌+◌, ◌*◌, ◌≡◌, refl, true, false, [], ◌∷◌, arith, length}
use blackstone.Map.{nat_key}
use blackstone.Merkle.{
  MerkleTree, build, top, get_proof, next_level, compute_proof, verify_proof, compute_merkle_root,
}
use blackstone.Merkle.Levels.{build-eq-compute}
use blackstone.Merkle.Proof.{
  complete, verify-compute_proof, verify-compute_proof_pow, verify-compute_proof_odd,
}

-- Each leaf of 0, 1, 2 keeps its place in the number.
abbrev pair : ℕ → ℕ → ℕ
pair x y = 10 * x + y + 1

abbrev tree : MerkleTree ℕ
tree = record { leaves = 1 ∷ 2 ∷ 3 ∷ []; tree = []; root = 0; built = false }

build-tree : (build pair 0 tree).tree ≡ (1 ∷ 2 ∷ 3 ∷ []) ∷ (13 ∷ 34 ∷ []) ∷ (165 ∷ []) ∷ []
unfolding build next_level
build-tree = refl

build-eq-compute_example :
    let b = build pair 0 tree in
    (b.root ≡ compute_merkle_root pair 0 (1 ∷ 2 ∷ 3 ∷ []))
    × (get_proof b 1 ≡ compute_proof pair (1 ∷ 2 ∷ 3 ∷ []) 1)
    × (length (top pair 3 (1 ∷ 2 ∷ 3 ∷ [])) ≡ 1)
build-eq-compute_example = build-eq-compute pair 0 tree 1

verify-compute_proof_example :
    verify_proof pair 2
      (compute_proof pair (1 ∷ 2 ∷ 3 ∷ []) 1)
      (compute_merkle_root pair 0 (1 ∷ 2 ∷ 3 ∷ []))
      1
    ≡ true
unfolding complete next_level
verify-compute_proof_example = verify-compute_proof pair 0 (1 ∷ 2 ∷ 3 ∷ []) 1 refl refl

verify-compute_proof_pow_at :
    verify_proof pair 3
      (compute_proof pair (1 ∷ 2 ∷ 3 ∷ 4 ∷ []) 2)
      (compute_merkle_root pair 0 (1 ∷ 2 ∷ 3 ∷ 4 ∷ []))
      2
    ≡ true
verify-compute_proof_pow_at = verify-compute_proof_pow pair 0 2 (1 ∷ 2 ∷ 3 ∷ 4 ∷ []) 2 3 refl refl

verify-compute_proof_odd_at :
    verify_proof pair 3
      (compute_proof pair (1 ∷ 2 ∷ 3 ∷ []) 2)
      (compute_merkle_root pair 0 (1 ∷ 2 ∷ 3 ∷ []))
      2
    ≡ false
verify-compute_proof_odd_at = verify-compute_proof_odd pair 0 1 2 3 (omega arith)
