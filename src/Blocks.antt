-- ===== src/Blocks.antt =====
-- p2p_banking_system/blockchain/block.h and block.cpp, with what they use of transaction.h and
-- transaction.cpp. The numbers of type `double` and their operations are an argument, and so are the
-- hash functions of core/sha1.cpp and the random nonces of `mineBlock`.
use Prim.Native.String.{◌++◌ as append, slice}
use blackstone.Prelude.{ℕ, zero, suc, String, Bool, true, false, List, map}
use blackstone.Prelude.Int.{ℤ}
use blackstone.Prelude.Decimal.{to_string, int_string}
use blackstone.Map.{◌==◌, string_key}
use blackstone.Merkle.{compute_merkle_root}

pub record Doubles (D : Type 0) : Type 0 where
  pub zero_double : D
  pub add : D → D → D
  pub sub : D → D → D
  pub times : D → D → D
  pub negate : D → D
  pub less : D → D → Bool
  pub at_most : D → D → Bool
  pub same : D → D → Bool
  pub print : D → String

pub record Hashes : Type 0 where
  pub sha1 : String → String
  pub sha1_double : String → String
  pub sha1_hmac : String → String → String

pub record Transaction (D : Type 0) : Type 0 where
  pub tx_id : String
  pub from_account : String
  pub to_account : String
  pub amount : D
  pub timestamp : ℕ
  pub nonce : ℕ
  pub signature : String
  pub hash : String
  pub metadata : String

pub record Block (D : Type 0) : Type 0 where
  pub index : ℤ
  pub previous_hash : String
  pub timestamp : ℕ
  pub transactions : List (Transaction D)
  pub merkle_root : String
  pub hash : String
  pub nonce : ℕ
  pub validator : String
  pub difficulty : ℕ
  pub version : String

abbrev pub zeros : ℕ → String
zeros zero = ""
zeros (suc n) = append "0" (zeros n)

-- Do the first characters of the hash, as many as the difficulty, read 0?
abbrev pub is_hard : ℕ → String → Bool
is_hard difficulty hash = slice hash 0 difficulty == zeros difficulty

module _ {D : Type 0} (double : Doubles D) (hashes : Hashes) where
  abbrev pub signed_data : Transaction D → String
  signed_data tx = append tx.tx_id (
      append tx.from_account (
        append tx.to_account
          (append (double.print tx.amount) (append (to_string tx.timestamp) (to_string tx.nonce)))))

  unfoldable pub verify_transaction : Transaction D → String → Bool
  verify_transaction tx public_key = hashes.sha1_hmac public_key (signed_data tx) == tx.signature

  abbrev pub tx_hash : Transaction D → String
  tx_hash tx = tx.hash

  unfoldable pub calculate_merkle_root : List (Transaction D) → String
  calculate_merkle_root txs =
      compute_merkle_root (λ l r. hashes.sha1 (append l r)) (hashes.sha1 "empty") (map tx_hash txs)

  abbrev pub get_header_data : Block D → String
  get_header_data b = append (int_string b.index) (
      append b.previous_hash (
        append (to_string b.timestamp) (
          append b.merkle_root (
            append (to_string b.nonce)
              (append b.validator (append (to_string b.difficulty) b.version))))))

  unfoldable pub calculate_hash : Block D → String
  calculate_hash b = hashes.sha1_double (get_header_data b)

  -- One attempt: the block with the i-th random nonce and its hash.
  abbrev pub attempt : (ℕ → ℕ) → ℕ → Block D → Block D
  attempt nonces i b =
      let b' = record b { nonce = nonces i } in record b' { hash = calculate_hash b' }

  -- The loop of `mineBlock`, from the i-th attempt with `left` to go.
  unfoldable pub mine_from : (ℕ → ℕ) → ℕ → ℕ → Block D → Block D × Bool
  unfolding calculate_hash
  mine_from nonces zero i b = (b, false)
  mine_from nonces (suc left) i b =
      let b' = attempt nonces i b in
      elim (is_hard b'.difficulty b'.hash) [
        | true ↦ (b', true)
        | false ↦ mine_from nonces left (suc i) b'
      ]

  unfoldable pub mine_block : (ℕ → ℕ) → ℕ → ℕ → Block D → Block D × Bool
  unfolding mine_from
  mine_block nonces target max_attempts b =
      mine_from nonces max_attempts 0 (record b { difficulty = target })
