-- ===== src/Consensus.antt =====
-- p2p_banking_system/blockchain/consensus.h and consensus.cpp. The numbers that the random source
-- draws, the clock, `double` and the hash functions are arguments. The index of the round robin is
-- static in the source: all engines share it, so it is handed in and out.
pub mod Selection
pub mod Rotation
pub mod Proposal
mod Tests
use blackstone.Prelude.{
  ℕ, ◌+◌, ◌%◌, String, Bool, true, false, not, ◌&&◌, Option, none, some, List, [], ◌∷◌, ◌++◌,
  length, get_elem?, eqb, ltb, if◌then◌else◌,
}
use blackstone.Prelude.Int.{ℤ, pos, ◌+ℤ◌, eqb_ℤ}
use blackstone.Prelude.Words.{inc64}
use blackstone.Map.{Map, ◌==◌, string_key, insert, erase}
use blackstone.Chain.{to_int}
use blackstone.Blocks.{Doubles, Hashes, Transaction, Block, calculate_merkle_root}

pub data ConsensusType : Type 0 where
  proof_of_work proof_of_stake proof_of_authority : ConsensusType
  proof_of_elapsed_time delegated_proof_of_stake : ConsensusType
  practical_byzantine_fault_tolerance : ConsensusType

pub record Engine (D : Type 0) : Type 0 where
  pub kind : ConsensusType
  pub validators : List String
  pub stakes : Map String D
  pub validator_scores : Map String ℕ
  pub current_round : ℕ

-- The random numbers of one call: of 64 bits, and between 0 and 1.
pub record Draws (D : Type 0) : Type 0 where
  pub u64 : ℕ
  pub uniform : D

abbrev pub or_empty : Option String → String
or_empty none = ""
or_empty (some id) = id

abbrev pub is_empty : {A : Type 0} → List A → Bool
is_empty [] = true
is_empty (x ∷ xs) = false

-- `validators[n % validators.size()]`
abbrev pub pick : ℕ → List String → String
pick n ids = or_empty (get_elem? ids (n % length ids))

-- The fallback of the selection by stake: `validators[0]`.
abbrev pub or_first : List String → Option String → String
or_first ids (some id) = id
or_first ids none = or_empty (get_elem? ids 0)

abbrev pub remove_first : String → List String → List String
remove_first id [] = []
remove_first id (v ∷ vs) = let rest = remove_first id vs in if v == id then vs else v ∷ rest

abbrev pub listed : String → List String → Bool
listed id [] = false
listed id (v ∷ vs) = if v == id then true else listed id vs

module _ {D : Type 0} where
  pub set_type : ConsensusType → Engine D → Engine D
  set_type kind s = record s { kind = kind }

  pub add_validator : String → D → Engine D → Engine D
  add_validator id stake s = record s {
    validators = s.validators ++ id ∷ [];
    stakes = insert id stake s.stakes;
    validator_scores = insert id 0 s.validator_scores;
  }

  pub remove_validator : String → Engine D → Engine D
  remove_validator id s = record s {
    validators = remove_first id s.validators;
    stakes = erase id s.stakes;
    validator_scores = erase id s.validator_scores;
  }

  pub update_stake : String → D → Engine D → Engine D
  update_stake id stake s = record s { stakes = insert id stake s.stakes }

  pub select_pow : Draws D → Engine D → String
  select_pow draws s = if is_empty s.validators then "" else pick draws.u64 s.validators

  -- The validator and the index of the next call.
  pub select_poa : ℕ → Engine D → String × ℕ
  select_poa index s =
      if is_empty s.validators then ("", index) else (pick index s.validators, inc64 index)

  pub select_pbft : Draws D → Engine D → String
  unfolding select_pow
  select_pbft draws s =
      if ltb (length s.validators) 4 then select_pow draws s else pick s.current_round s.validators

  pub validate_block : Block D → List (Block D) → Engine D → Bool
  validate_block b chain s =
      not (b.validator == "")
      && listed b.validator s.validators
      && eqb_ℤ b.index (to_int (length chain))

module _ {D : Type 0} (double : Doubles D) where
  abbrev pub total_stake : D → Map String D → D
  total_stake total [] = total
  total_stake total (e ∷ m) = total_stake (double.add total e.1) m

  abbrev pub first_reaching : D → D → Map String D → Option String
  first_reaching target cumulative [] = none
  first_reaching target cumulative (e ∷ m) =
      let sum = double.add cumulative e.1 in
      let rest = first_reaching target sum m in if double.at_most target sum then some e.0 else rest

  pub select_pos : Draws D → Engine D → String
  unfolding select_pow
  select_pos draws s =
      let total = total_stake double.zero_double s.stakes in
      if double.same total double.zero_double
      then select_pow draws s
      else or_first s.validators
          (first_reaching (double.times draws.uniform total) double.zero_double s.stakes)

  abbrev pub select_by : ConsensusType → Draws D → ℕ → Engine D → String × ℕ
  select_by proof_of_work draws index s = (select_pow draws s, index)
  select_by proof_of_stake draws index s = (select_pos draws s, index)
  select_by proof_of_authority draws index s = select_poa index s
  select_by delegated_proof_of_stake draws index s = (select_pos draws s, index)
  select_by practical_byzantine_fault_tolerance draws index s = (select_pbft draws s, index)
  select_by proof_of_elapsed_time draws index s = (select_pow draws s, index)

  pub select_validator : Draws D → ℕ → Engine D → Engine D × String × ℕ
  unfolding select_pow select_pos select_poa select_pbft
  select_validator draws index s =
      let s' = record s { current_round = inc64 s.current_round } in
      let selected = select_by s.kind draws index s' in (s', selected.0, selected.1)

  abbrev pub default_block : Block D
  default_block = record {
    index = pos 0;
    previous_hash = "";
    timestamp = 0;
    transactions = [];
    merkle_root = "";
    hash = "";
    nonce = 0;
    validator = "";
    difficulty = 4;
    version = "";
  }

  pub propose_block : Hashes → List (Transaction D) → Block D → String → ℕ → Block D
  unfolding calculate_merkle_root
  propose_block hashes transactions latest validator now = record default_block {
    index = latest.index +ℤ pos 1;
    previous_hash = latest.hash;
    timestamp = now;
    transactions = transactions;
    merkle_root = calculate_merkle_root double hashes transactions;
    validator = validator;
    difficulty = 4;
    version = "1.0";
  }
