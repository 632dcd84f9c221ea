-- ===== src/Validator/Mined.antt =====
-- p2p_banking_system/blockchain/block.cpp and blockchain.cpp: blocks that are mined, and their difficulty.
use blackstone.Prelude.{ℕ, ◌<◌, ◌≡◌, refl, ◌∙◌, ap, Bool, true, false, not, ◌&&◌, arith, leb}
use blackstone.Prelude.Int.{ℤ, pos, ◌+ℤ◌, eqb_ℤ}
use blackstone.Map.{◌==◌, string_key, beq_refl}
use blackstone.Blocks.{Doubles, Hashes, Block, is_hard, mine_block, mine_from}
use blackstone.Chain.Verify.{IsMined, mine_from-IsMined}
use blackstone.Validator.{validate_after}

same_index : (n : ℤ) → eqb_ℤ n n ≡ true
same_index n = ground arith

later : (m n : ℕ) → m < n → not (leb n m) ≡ true
later m n h = ground arith

all_true :
    {c d e g h : Bool}
    → c ≡ true
    → d ≡ true
    → e ≡ true
    → g ≡ true
    → h ≡ true
    → (c && d && e && g && h) ≡ true
all_true c d e g h = rw (c, d, e, g, h) refl

module _ {D : Type 0} (double : Doubles D) (hashes : Hashes) where
  IsMined-valid :
      (previous b : Block D) (r : Block D × Bool)
      → b.index ≡ previous.index +ℤ pos 1
      → b.previous_hash ≡ previous.hash
      → previous.timestamp < b.timestamp
      → IsMined double hashes b r
      → r.1 ≡ true
      → validate_after double hashes previous r.0 ≡ true
  unfolding validate_after
  IsMined-valid previous b (b', false) i p t m f = cc
  IsMined-valid previous b (b', true) i p t m f =
      all_true
        (ap (λ n. eqb_ℤ n (previous.index +ℤ pos 1)) (m.0 ∙ i)
          ∙ same_index (previous.index +ℤ pos 1))
        (ap (λ h. h == previous.hash) (m.1 ∙ p) ∙ beq_refl previous.hash)
        (ap (λ n. not (leb n previous.timestamp)) m.6 ∙ later previous.timestamp b.timestamp t)
        (ap (λ h. h == b'.hash) m.4 ∙ beq_refl b'.hash) (ap (λ d. is_hard d b'.hash) m.7 ∙ m.5)

  -- A block that follows another, with its hash and a later time, and that mining finds a hash for,
  -- passes validateBlock after the other.
  pub mine_block-valid :
      (nonces : ℕ → ℕ) (target max : ℕ) (previous b : Block D)
      → b.index ≡ previous.index +ℤ pos 1
      → b.previous_hash ≡ previous.hash
      → previous.timestamp < b.timestamp
      → (mine_block double hashes nonces target max b).1 ≡ true
      → validate_after double hashes previous (mine_block double hashes nonces target max b).0
        ≡ true
  unfolding mine_block
  mine_block-valid nonces target max previous b i p t f =
      let b' = record b { difficulty = target } in
      IsMined-valid previous b' (mine_from double hashes nonces max 0 b') i p t
        (mine_from-IsMined double hashes nonces max 0 b') f
