-- ===== src/Consensus/Selection.antt =====
-- p2p_banking_system/blockchain/consensus.cpp: whom a selection may return.
use native.Mathlib.Nat.{mod-lt}
use blackstone.Prelude.{
  ℕ, zero, suc, ◌%◌, ◌<◌, ◌≡◌, refl, ap, String, Bool, true, false, ◌&&◌, ◌||◌, Option, none, some,
  List, [], ◌∷◌, arith, length, get_elem?, get_elem?-some, ltb, if_both,
}
use blackstone.Prelude.Words.{inc64}
use blackstone.Map.{Map, string_key, find, contains}
use blackstone.Blocks.{Doubles}
use blackstone.Consensus.{
  ConsensusType, proof_of_work, proof_of_stake, proof_of_authority, proof_of_elapsed_time,
  delegated_proof_of_stake, practical_byzantine_fault_tolerance, Engine, Draws, or_empty, is_empty,
  pick, listed, select_pow, select_poa, select_pbft, total_stake, first_reaching, or_first,
  select_pos, select_by, select_validator,
}

pub listed-get_elem? :
    (ids : List String) (i : ℕ) {v : String} → get_elem? ids i ≡ some v → listed v ids ≡ true
listed-get_elem? [] i h = cc
listed-get_elem? (u ∷ ids) zero {v} h = rw ((string_key.beq_iff u v).1 (ap or_empty h)) refl
listed-get_elem? (u ∷ ids) (suc i) h = ground (arith, listed-get_elem? ids i h)

or_empty-listed :
    (ids : List String) (i : ℕ) → i < length ids → listed (or_empty (get_elem? ids i)) ids ≡ true
or_empty-listed ids i h = let r = get_elem?-some ids i h in rw r.1 (listed-get_elem? ids i r.1)

pick-listed : (n : ℕ) (ids : List String) → 0 < length ids → listed (pick n ids) ids ≡ true
pick-listed n ids h = or_empty-listed ids (n % length ids) (mod-lt n h)

pub empty_not : {A : Type 0} (xs : List A) → 0 < length xs → is_empty xs ≡ false
empty_not [] h = absurd (omega arith)
empty_not (x ∷ xs) h = refl

abbrev pub is_stake : ConsensusType → Bool
is_stake proof_of_work = false
is_stake proof_of_stake = true
is_stake proof_of_authority = false
is_stake proof_of_elapsed_time = false
is_stake delegated_proof_of_stake = true
is_stake practical_byzantine_fault_tolerance = false

module _ {D : Type 0} where
  pub select_pow-listed :
      (draws : Draws D) (s : Engine D)
      → 0 < length s.validators
      → listed (select_pow draws s) s.validators ≡ true
  unfolding select_pow
  select_pow-listed draws s h = rw (empty_not s.validators h) (pick-listed draws.u64 s.validators h)

  pub select_poa-listed :
      (index : ℕ) (s : Engine D)
      → 0 < length s.validators
      → listed (select_poa index s).0 s.validators ≡ true
  unfolding select_poa
  select_poa-listed index s h = rw (empty_not s.validators h) (pick-listed index s.validators h)

  pub select_pbft-listed :
      (draws : Draws D) (s : Engine D)
      → 0 < length s.validators
      → listed (select_pbft draws s) s.validators ≡ true
  unfolding select_pbft
  select_pbft-listed draws s h =
      if_both (λ v. listed v s.validators ≡ true) (ltb (length s.validators) 4)
        (select_pow-listed draws s h) (pick-listed s.current_round s.validators h)

module _ {D : Type 0} (double : Doubles D) where
  first_reaching-contains :
      (target cumulative : D) (m : Map String D) (id : String)
      → first_reaching double target cumulative m ≡ some id
      → contains id m ≡ true
  unfolding find
  first_reaching-contains target cumulative [] id h = cc
  first_reaching-contains target cumulative (e ∷ m) id h = ground (
    arith,
    string_key.beq_iff e.0 id,
    first_reaching-contains target (double.add cumulative e.1) m id,
  )

  abbrev IsCandidate : Engine D → String → Type 0
  IsCandidate s id = (listed id s.validators || contains id s.stakes) ≡ true

  or_first-IsCandidate :
      (s : Engine D) (o : Option String)
      → 0 < length s.validators
      → ((id : String) → o ≡ some id → contains id s.stakes ≡ true)
      → IsCandidate s (or_first s.validators o)
  or_first-IsCandidate s (some id) h k = ground (arith, k id refl)
  or_first-IsCandidate s none h k = ground (arith, or_empty-listed s.validators 0 h)

  select_pos-IsCandidate :
      (draws : Draws D) (s : Engine D)
      → 0 < length s.validators
      → IsCandidate s (select_pos double draws s)
  unfolding select_pos
  select_pos-IsCandidate draws s h =
      let total = total_stake double double.zero_double s.stakes in
      let target = double.times draws.uniform total in
      if_both (IsCandidate s) (double.same total double.zero_double)
        (ground (arith, select_pow-listed draws s h))
        (or_first-IsCandidate s (first_reaching double target double.zero_double s.stakes) h
          (λ id e. first_reaching-contains target double.zero_double s.stakes id e))

  -- With a validator or more, a selection returns one of them; by stake it may also return a name that
  -- has a stake and is no validator.
  pub select_validator-candidate :
      (draws : Draws D) (index : ℕ) (s : Engine D)
      → 0 < length s.validators
      → let id = (select_validator double draws index s).1 in
        (listed id s.validators || (is_stake s.kind && contains id s.stakes)) ≡ true
  unfolding select_validator
  select_validator-candidate draws index s h = by_kind s.kind
    where
      after : Engine D
      after = record s { current_round = inc64 s.current_round }

      by_kind :
          (kind : ConsensusType)
          → (listed (select_by double kind draws index after).0 s.validators
              || (is_stake kind && contains (select_by double kind draws index after).0 s.stakes))
            ≡ true
      by_kind proof_of_work = ground (arith, select_pow-listed draws after h)
      by_kind proof_of_stake = select_pos-IsCandidate draws after h
      by_kind proof_of_authority = ground (arith, select_poa-listed index after h)
      by_kind proof_of_elapsed_time = ground (arith, select_pow-listed draws after h)
      by_kind delegated_proof_of_stake = select_pos-IsCandidate draws after h
      by_kind practical_byzantine_fault_tolerance = ground (arith, select_pbft-listed draws after h)
