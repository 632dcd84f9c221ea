-- ===== src/Merkle.antt =====
-- p2p_banking_system/blockchain/merkle_tree.h and merkle_tree.cpp. Hashes are the values of a type
-- with `==`; `pair left right` is `sha1(left + right)`, `empty_hash` is `sha1("empty")` and `blank`
-- is the empty string.
pub mod Levels
pub mod Proof
mod Tests
use blackstone.Prelude.{
  ℕ, zero, suc, ◌+◌, ◌-◌, ◌/◌, ◌%◌, Bool, true, false, not, ◌&&◌, ◌||◌, Option, none, some, List,
  [], ◌∷◌, ◌++◌, eqb, ltb, leb, if◌then◌else◌, length, get_elem?,
}
use blackstone.Map.{Key, ◌==◌}

abbrev pub sibling_index : ℕ → ℕ
sibling_index i = if eqb (i % 2) 0 then i + 1 else i - 1

module _ {H : Type 0} where
  -- `hashes.push_back(hashes.back())` on a level of odd length
  pub pad : List H → List H
  pad [] = []
  pad (x ∷ []) = x ∷ x ∷ []
  pad (x ∷ y ∷ xs) = x ∷ y ∷ pad xs

  abbrev pub push_sibling : Option H → List H
  push_sibling none = []
  push_sibling (some h) = h ∷ []

  -- The loop of `getProof` over the stored levels but the last; `tree.size() - 1` wraps for an empty
  -- tree, which `getProof` has excluded.
  pub walk : List (List H) → ℕ → List H
  walk [] i = []
  walk (l ∷ []) i = []
  walk (l ∷ l' ∷ ls) i = push_sibling (get_elem? l (sibling_index i)) ++ walk (l' ∷ ls) (i / 2)

pub record MerkleTree (H : Type 0) : Type 0 where
  pub leaves : List H
  pub tree : List (List H)
  pub root : H
  pub built : Bool

module _ {H : Type 0} (pair : H → H → H) where
  -- The inner loop: the hashes of neighbours.
  pub pair_up : List H → List H
  pair_up (x ∷ y ∷ xs) = pair x y ∷ pair_up xs
  pair_up xs = []

  pub next_level : List H → List H
  unfolding pair_up pad
  next_level level = pair_up (pad level)

  -- `while (currentLevel.size() > 1)`: a level with those above it.
  pub levels : ℕ → List H → List (List H)
  levels zero level = level ∷ []
  levels (suc fuel) level =
      let rest = levels fuel (next_level level) in
      if ltb 1 (length level) then level ∷ rest else level ∷ []

  -- What the loop of `computeMerkleRoot` leaves of the hashes.
  pub top : ℕ → List H → List H
  top zero level = level
  top (suc fuel) level =
      let rest = top fuel (next_level level) in if ltb 1 (length level) then rest else level

  -- The loop of `computeProof`.
  pub proof_of : ℕ → List H → ℕ → List H
  proof_of zero level i = []
  proof_of (suc fuel) level i =
      let rest = proof_of fuel (next_level level) (i / 2) in
      if ltb 1 (length level) then push_sibling (get_elem? level (sibling_index i)) ++ rest else []

  -- A level of n > 1 hashes leaves fewer than n, so n rounds are enough.
  pub compute_proof : List H → ℕ → List H
  unfolding proof_of
  compute_proof hashes i = if leb (length hashes) i then [] else proof_of (length hashes) hashes i

  -- The loop of `verifyProof`.
  pub climb : H → List H → ℕ → H
  climb current [] i = current
  climb current (s ∷ ss) i =
      climb (if eqb (i % 2) 0 then pair current s else pair s current) ss (i / 2)

  pub verify_proof : ⦃key : Key H⦄ → H → List H → H → ℕ → Bool
  unfolding climb
  verify_proof hash proof root i = climb hash proof i == root

  module _ (empty_hash : H) where
    -- `hashes[0]`
    abbrev pub first_or : List H → H
    first_or [] = empty_hash
    first_or (x ∷ xs) = x

    pub compute_merkle_root : List H → H
    unfolding top
    compute_merkle_root hashes = first_or (top (length hashes) hashes)

    abbrev pub build_from : MerkleTree H → List H → MerkleTree H
    build_from t [] = record t { root = empty_hash; built = true }
    build_from t (x ∷ xs) = record t {
      tree = levels (length (x ∷ xs)) (x ∷ xs);
      root = first_or (top (length (x ∷ xs)) (x ∷ xs));
      built = true;
    }

    pub build : MerkleTree H → MerkleTree H
    unfolding levels top
    build t = build_from t t.leaves

module _ {H : Type 0} where
  pub add_leaf : MerkleTree H → H → MerkleTree H
  add_leaf t h = record t { leaves = t.leaves ++ h ∷ []; built = false }

  pub add_leaves : MerkleTree H → List H → MerkleTree H
  add_leaves t hs = record t { leaves = t.leaves ++ hs; built = false }

  pub get_proof : MerkleTree H → ℕ → List H
  unfolding walk
  get_proof t i = if not t.built || leb (length t.leaves) i then [] else walk t.tree i

  pub get_leaf_count : MerkleTree H → ℕ
  get_leaf_count t = length t.leaves

  pub clear : H → MerkleTree H → MerkleTree H
  clear blank t = record { leaves = []; tree = []; root = blank; built = false }
