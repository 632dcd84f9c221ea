-- ===== src/Consensus/Tests.antt =====
-- Selections with stakes of whole amounts.
use blackstone.Prelude.{◌≡◌, refl, true, ◌&&◌, ◌||◌, [], ◌∷◌, arith}
use blackstone.Prelude.Int.{ℤ, pos, ◌+ℤ◌, ◌-ℤ◌, ltb_ℤ, leb_ℤ}
use blackstone.Map.{contains, string_key, find, insert, place}
use blackstone.Blocks.{Doubles, Hashes}
use blackstone.Consensus.{
  ConsensusType, proof_of_stake, proof_of_authority, Engine, Draws, listed, update_stake,
  select_validator, select_pos, validate_block, propose_block, default_block,
}
use blackstone.Consensus.Selection.{select_validator-candidate}
use blackstone.Consensus.Rotation.{select_many, select_many-listed}
use blackstone.Consensus.Proposal.{propose_block-valid}

abbrev whole : Doubles ℤ
whole = record {
  zero_double = pos 0;
  add = ◌+ℤ◌;
  sub = ◌-ℤ◌;
  times = λ a b. b;
  negate = λ a. pos 0 -ℤ a;
  less = ltb_ℤ;
  at_most = leb_ℤ;
  same = λ a b. leb_ℤ a b && leb_ℤ b a;
  print = λ d. "0";
}

abbrev hashes : Hashes
hashes = record { sha1 = λ s. s; sha1_double = λ s. "0000ab"; sha1_hmac = λ key s. key }

abbrev draws : Draws ℤ
draws = record { u64 = 5; uniform = pos 1 }

abbrev engine : ConsensusType → Engine ℤ
engine kind = record {
  kind = kind;
  validators = "ann" ∷ "bob" ∷ [];
  stakes = ("ann", pos 1) ∷ ("bob", pos 2) ∷ [];
  validator_scores = [];
  current_round = 0;
}

select_validator-candidate_example :
    let id = (select_validator whole draws 0 (engine proof_of_stake)).1 in
    (listed id ("ann" ∷ "bob" ∷ []) || (true && contains id (engine proof_of_stake).stakes)) ≡ true
select_validator-candidate_example =
    select_validator-candidate whole draws 0 (engine proof_of_stake) (omega arith)

-- A stake for a name that is no validator: the name is selected.
stranger : select_pos whole draws (update_stake "eve" (pos 9) (engine proof_of_stake)) ≡ "eve"
unfolding select_pos update_stake insert find place ◌+ℤ◌
stranger = refl

select_many-listed_example : listed "ann" (select_many 2 7 (engine proof_of_authority)) ≡ true
select_many-listed_example =
    select_many-listed 7 "ann" (engine proof_of_authority) refl (omega arith)

propose_block-valid_example :
    let r = select_validator whole draws 3 (engine proof_of_authority) in
    let b = propose_block whole hashes [] (default_block whole) r.1 9 in
    validate_block b (default_block whole ∷ []) r.0 ≡ true
unfolding ◌+ℤ◌
propose_block-valid_example =
    propose_block-valid whole hashes draws 3 9 (engine proof_of_authority) []
      (default_block whole ∷ []) (default_block whole) refl (omega arith) (refl, (refl, tt))
      (omega arith) next
  where
    next : (default_block whole).index +ℤ pos 1 ≡ pos 1
    next = refl
