-- ===== src/Validator.antt =====
-- `Block::validateBlock` of p2p_banking_system/blockchain/block.cpp and `BlockchainValidator` of
-- blockchain.cpp. The clock, `double` and the hash functions are arguments.
pub mod Mined
mod Tests
use blackstone.Prelude.{
  ℕ, ◌+◌, ◌-◌, ◌*◌, ◌/◌, String, Bool, true, false, not, ◌&&◌, List, [], ◌∷◌, eqb, ltb, leb, length,
  if◌then◌else◌,
}
use blackstone.Prelude.Int.{ℤ, pos, negsuc, neg_part, ◌+ℤ◌, eqb_ℤ, ltb_ℤ}
use blackstone.Prelude.Words.{add64, sub64}
use blackstone.Map.{◌==◌, string_key}
use blackstone.Chain.{to_int}
use blackstone.Blocks.{
  Doubles, Hashes, Transaction, Block, is_hard, calculate_merkle_root, calculate_hash,
}

module _ {D : Type 0} where
  -- `validateBlockStructure`
  pub has_structure : Block D → Bool
  has_structure b =
      not (ltb_ℤ b.index (pos 0))
      && not (b.previous_hash == "")
      && not (eqb b.timestamp 0)
      && not (b.merkle_root == "")
      && not (b.hash == "")
      && not (b.validator == "")

  pub validate_transaction_order : List (Transaction D) → Bool
  validate_transaction_order [] = true
  validate_transaction_order (t ∷ []) = true
  validate_transaction_order (t ∷ u ∷ ts) =
      not (ltb u.timestamp t.timestamp) && validate_transaction_order (u ∷ ts)

  pub validate_timestamp : Block D → ℕ → ℕ → Bool
  validate_timestamp b max_future now = not (ltb (add64 now max_future) b.timestamp)

  abbrev pub first_time : List (Block D) → ℕ
  first_time [] = 0
  first_time (b ∷ bs) = b.timestamp

  abbrev pub last_time : List (Block D) → ℕ
  last_time [] = 0
  last_time (b ∷ []) = b.timestamp
  last_time (b ∷ c ∷ bs) = last_time (c ∷ bs)

  -- The time between two blocks on average, converted to `int`. The target is positive, and twice
  -- the target is in the range of `int`.
  abbrev pub average_time : List (Block D) → ℤ
  average_time blocks = to_int (sub64 (last_time blocks) (first_time blocks) / (length blocks - 1))

  pub calculate_next_difficulty : List (Block D) → ℕ → ℕ
  calculate_next_difficulty blocks target =
      if ltb (length blocks) 2
      then 4
      else if ltb_ℤ (average_time blocks) (pos (target / 2))
      then 5
      else if ltb_ℤ (pos (target * 2)) (average_time blocks)
      then 3
      else 4

module _ {D : Type 0} (double : Doubles D) (hashes : Hashes) where
  pub validate_after : Block D → Block D → Bool
  unfolding calculate_hash
  validate_after previous b =
      eqb_ℤ b.index (previous.index +ℤ pos 1)
      && (b.previous_hash == previous.hash)
      && not (leb b.timestamp previous.timestamp)
      && (calculate_hash double hashes b == b.hash)
      && is_hard b.difficulty b.hash

  pub validate_merkle_root : Block D → Bool
  unfolding calculate_merkle_root
  validate_merkle_root b = calculate_merkle_root double hashes b.transactions == b.merkle_root
