-- ===== src/Chain.antt =====
-- `BankingBlockchain` of p2p_banking_system/blockchain/blockchain.h and blockchain.cpp. Every method
-- holds the chain's mutex.
pub mod Verify
pub mod Direct
mod Tests
use blackstone.Prelude.{
  ℕ, zero, suc, ◌+◌, ◌-◌, ◌%◌, ◌^◌, String, Bool, true, false, not, ◌&&◌, Option, none, some, List,
  [], ◌∷◌, ◌++◌, ltb, if◌then◌else◌, length, map,
}
use blackstone.Prelude.Int.{ℤ, pos, negsuc, eqb_ℤ}
use blackstone.Map.{Key, ◌==◌, Map, find, contains, insert, string_key}
use blackstone.Blocks.{
  Doubles, Hashes, Transaction, Block, is_hard, verify_transaction, tx_hash, calculate_merkle_root,
  calculate_hash, attempt, mine_from, mine_block, signed_data, zeros, get_header_data,
}

pub record BankingBlockchain (D : Type 0) : Type 0 where
  pub chain : List (Block D)
  pub balances : Map String D
  pub account_transactions : Map String (List String)
  pub block_index : Map String (Block D)

-- A `size_t` converted to `int`.
abbrev pub to_int : ℕ → ℤ
to_int n = if ltb (n % 2 ^ 32) (2 ^ 31) then pos (n % 2 ^ 32) else negsuc (2 ^ 32 - 1 - n % 2 ^ 32)

module _ {D : Type 0} (double : Doubles D) (hashes : Hashes) where
  abbrev pub genesis : Block D
  genesis =
      let b : Block D = record {
        index = pos 0;
        previous_hash = hashes.sha1 "GENESIS";
        timestamp = 0;
        transactions = [];
        merkle_root = hashes.sha1 "GENESIS_BLOCK";
        hash = "";
        nonce = 0;
        validator = "SYSTEM";
        difficulty = 4;
        version = "";
      } in
      record b { hash = calculate_hash double hashes b }

  pub new_blockchain : BankingBlockchain D
  unfolding calculate_hash
  new_blockchain = record {
    chain = genesis ∷ [];
    balances = [];
    account_transactions = [];
    block_index = [];
  }

  abbrev pub double_or_zero : Option D → D
  double_or_zero none = double.zero_double
  double_or_zero (some d) = d

  -- `balances[account]`
  abbrev pub balance_of : String → Map String D → D
  balance_of account m = double_or_zero (find account m)

  abbrev pub transfer : Transaction D → Map String D → Map String D
  transfer tx m =
      let m' = insert tx.from_account (double.sub (balance_of tx.from_account m) tx.amount) m in
      insert tx.to_account (double.add (balance_of tx.to_account m') tx.amount) m'

  pub validate_from : List (Transaction D) → Map String D → Bool
  unfolding verify_transaction
  validate_from [] m = true
  validate_from (tx ∷ txs) m =
      let rest = validate_from txs (transfer tx m) in
      if not (verify_transaction double hashes tx tx.from_account)
      then false
      else if double.less (balance_of tx.from_account m) tx.amount
      then false
      else rest

  pub validate_transactions : BankingBlockchain D → List (Transaction D) → Bool
  unfolding validate_from
  validate_transactions s txs = validate_from txs s.balances

  abbrev pub ids_of : Option (List String) → List String
  ids_of none = []
  ids_of (some ids) = ids

  abbrev pub note : String → String → Map String (List String) → Map String (List String)
  note account id m = insert account (ids_of (find account m) ++ id ∷ []) m

  pub update_balances : List (Transaction D) → BankingBlockchain D → BankingBlockchain D
  update_balances [] s = s
  update_balances (tx ∷ txs) s = update_balances txs (record s {
    balances = transfer tx s.balances;
    account_transactions =
        note tx.to_account tx.tx_id (note tx.from_account tx.tx_id s.account_transactions);
  })

  -- `chain.back().hash`; the constructor makes the first block, and none is taken away.
  abbrev pub last_hash : List (Block D) → String
  last_hash [] = ""
  last_hash (b ∷ []) = b.hash
  last_hash (b ∷ c ∷ bs) = last_hash (c ∷ bs)

  -- The last writes of both operations that add a block.
  abbrev pub append_block : Block D → BankingBlockchain D → BankingBlockchain D
  append_block b s =
      let s' = update_balances b.transactions s in
      record s' { chain = s'.chain ++ b ∷ []; block_index = insert b.hash b s'.block_index }

  abbrev pub new_block : BankingBlockchain D → List (Transaction D) → String → ℕ → Block D
  new_block s txs validator now = record {
    index = to_int (length s.chain);
    previous_hash = last_hash s.chain;
    timestamp = now;
    transactions = txs;
    merkle_root = calculate_merkle_root double hashes txs;
    hash = "";
    nonce = 0;
    validator = validator;
    difficulty = 4;
    version = "";
  }

  abbrev pub add_mined : BankingBlockchain D → Block D × Bool → BankingBlockchain D × Bool
  add_mined s (b, found) = if found then (append_block b s, true) else (s, false)

  pub add_block :
      BankingBlockchain D → List (Transaction D) → String → ℕ → (ℕ → ℕ) → BankingBlockchain D × Bool
  unfolding validate_transactions update_balances mine_block calculate_merkle_root
  add_block s txs validator now nonces =
      if not (validate_transactions s txs)
      then (s, false)
      else add_mined s (mine_block double hashes nonces 4 1000000 (new_block s txs validator now))

  pub add_block_direct : BankingBlockchain D → Block D → BankingBlockchain D × Bool
  unfolding validate_transactions update_balances calculate_hash
  add_block_direct s b =
      if not (eqb_ℤ b.index (to_int (length s.chain)))
      then (s, false)
      else if not (b.previous_hash == last_hash s.chain)
      then (s, false)
      else if not (calculate_hash double hashes b == b.hash)
      then (s, false)
      else if not (validate_transactions s b.transactions)
      then (s, false)
      else (append_block b s, true)

  -- The tests of `verifyChain` on the i-th block and the one before it.
  abbrev pub is_linked : ℕ → Block D → Block D → Bool
  is_linked i prev b =
      if not (b.previous_hash == prev.hash)
      then false
      else if not (calculate_hash double hashes b == b.hash)
      then false
      else if not (eqb_ℤ b.index (to_int i))
      then false
      else b.merkle_root == calculate_merkle_root double hashes b.transactions

  pub verify_from : ℕ → Block D → List (Block D) → Bool
  unfolding calculate_hash calculate_merkle_root
  verify_from i prev [] = true
  verify_from i prev (b ∷ bs) = is_linked i prev b && verify_from (suc i) b bs

  abbrev pub verify_blocks : List (Block D) → Bool
  verify_blocks [] = true
  verify_blocks (b ∷ bs) = verify_from 1 b bs

  pub verify_chain : BankingBlockchain D → Bool
  unfolding verify_from
  verify_chain s = verify_blocks s.chain

  pub get_latest_hash : BankingBlockchain D → String
  get_latest_hash s = last_hash s.chain

  pub get_height : BankingBlockchain D → ℤ
  get_height s = to_int (length s.chain)

  pub get_balance : BankingBlockchain D → String → D
  get_balance s account = balance_of account s.balances

  pub get_account_transactions : BankingBlockchain D → String → List String
  get_account_transactions s account = ids_of (find account s.account_transactions)

  pub contains_block : BankingBlockchain D → String → Bool
  contains_block s hash = contains hash s.block_index
