-- ===== src/Consensus/Proposal.antt =====
-- p2p_banking_system/blockchain/consensus.cpp: a block that is proposed for a selected validator.
use blackstone.Prelude.{
  ℕ, ◌%◌, ◌^◌, ◌<◌, ◌≡◌, refl, sym, ◌∙◌, ap, String, Bool, true, false, ◌&&◌, ◌||◌, List, [], ◌∷◌,
  arith, length, All, ltb, inl, inr, Bool-cases,
}
use blackstone.Prelude.Int.{pos, ◌+ℤ◌, eqb_ℤ}
use blackstone.Map.{◌==◌, string_key, contains}
use blackstone.Chain.{to_int}
use blackstone.Blocks.{Doubles, Hashes, Transaction, Block}
use blackstone.Consensus.{Engine, Draws, listed, select_validator, validate_block, propose_block}
use blackstone.Consensus.Selection.{is_stake, select_validator-candidate}

listed_named :
    (id : String) (ids : List String)
    → All (λ v. (v == "") ≡ false) ids
    → listed id ids ≡ true
    → (id == "") ≡ false
listed_named id [] h k = cc
listed_named id (v ∷ ids) h k = elim (Bool-cases (v == id)) [
  | inl e ↦ ap (λ u. u == "") (sym ((string_key.beq_iff v id).0 e)) ∙ h.0
  | inr e ↦ listed_named id ids h.1 (ground arith)
]

module _ {D : Type 0} (double : Doubles D) (hashes : Hashes) where
  -- The block that is proposed for the validator that a selection returns passes the engine's test on
  -- the chain, if the selection is not by stake, no validator's name is empty, and the index of the
  -- last block is one less than the length of the chain, which is below 2^31.
  pub propose_block-valid :
      (draws : Draws D) (index now : ℕ) (s : Engine D) (txs : List (Transaction D))
      (chain : List (Block D)) (latest : Block D)
      → is_stake s.kind ≡ false
      → 0 < length s.validators
      → All (λ v. (v == "") ≡ false) s.validators
      → length chain < 2 ^ 31
      → latest.index +ℤ pos 1 ≡ pos (length chain)
      → let r = select_validator double draws index s in
        validate_block (propose_block double hashes txs latest r.1 now) chain r.0 ≡ true
  unfolding validate_block propose_block select_validator
  propose_block-valid draws index now s txs chain latest st h named l li =
      let r = select_validator double draws index s in
      let known : listed r.1 s.validators ≡ true =
        candidate (listed r.1 s.validators) (is_stake s.kind) (contains r.1 s.stakes)
          (select_validator-candidate double draws index s h) st in
      rw (listed_named r.1 s.validators named known, known, li, small (length chain) l)
        (same (length chain))
    where
      candidate : (a b c : Bool) → (a || (b && c)) ≡ true → b ≡ false → a ≡ true
      candidate a b c e f = ground arith

      small : (n : ℕ) → n < 2 ^ 31 → to_int n ≡ pos n
      small n h =
          let m : n % 2 ^ 32 ≡ n = omega arith in
          let t : ltb n (2 ^ 31) ≡ true = ground arith in rw (m, t) refl

      same : (n : ℕ) → eqb_ℤ (pos n) (pos n) ≡ true
      same n = ground arith
