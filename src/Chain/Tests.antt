-- ===== src/Chain/Tests.antt =====
-- A chain of whole amounts, with hash functions that make every block hard enough.
use blackstone.Prelude.{ℕ, ◌≡◌, refl, true, [], ◌∷◌, if◌then◌else◌, ◌&&◌}
use blackstone.Prelude.Int.{ℤ, pos, ◌+ℤ◌, ◌-ℤ◌, ltb_ℤ, leb_ℤ}
use blackstone.Map.{find}
use blackstone.Blocks.{Doubles, Hashes, Transaction, Block}
use blackstone.Chain.{
  BankingBlockchain, new_blockchain, genesis, add_block, add_block_direct, verify_chain,
}
use blackstone.Chain.Verify.{IsVerified, is_rooted}
use blackstone.Chain.Direct.{
  IsOutcome, add_block-IsVerified, add_block_direct_cases, Request, run, run-verify_chain,
}

abbrev whole : Doubles ℤ
whole = record {
  zero_double = pos 0;
  add = ◌+ℤ◌;
  sub = ◌-ℤ◌;
  times = λ a b. a;
  negate = λ a. pos 0 -ℤ a;
  less = ltb_ℤ;
  at_most = leb_ℤ;
  same = λ a b. leb_ℤ a b && leb_ℤ b a;
  print = λ d. "0";
}

abbrev hashes : Hashes
hashes = record { sha1 = λ s. s; sha1_double = λ s. "0000ab"; sha1_hmac = λ key s. key }

abbrev payment : Transaction ℤ
payment = record {
  tx_id = "t";
  from_account = "ann";
  to_account = "bob";
  amount = pos 0;
  timestamp = 1;
  nonce = 1;
  signature = "ann";
  hash = "h";
  metadata = "";
}

abbrev empty_chain : BankingBlockchain ℤ
empty_chain = new_blockchain whole hashes

abbrev nonces : ℕ → ℕ
nonces i = i

empty_chain-IsVerified : IsVerified whole hashes empty_chain
unfolding new_blockchain verify_chain
empty_chain-IsVerified = (genesis whole hashes, [], refl, refl)

add_block-IsVerified_example :
    let r = add_block whole hashes empty_chain (payment ∷ []) "v" 7 nonces in
    IsVerified whole hashes r.0 × IsOutcome whole hashes empty_chain r
add_block-IsVerified_example =
    add_block-IsVerified whole hashes empty_chain (payment ∷ []) "v" 7 nonces empty_chain-IsVerified

abbrev forged : Block ℤ
forged = record {
  index = pos 1;
  previous_hash = "0000ab";
  timestamp = 9;
  transactions = payment ∷ [];
  merkle_root = "other";
  hash = "0000ab";
  nonce = 3;
  validator = "v";
  difficulty = 4;
  version = "";
}

-- The block whose Merkle root is wrong is put on the chain.
forged_accepted : (add_block_direct whole hashes empty_chain forged).1 ≡ true
unfolding add_block_direct new_blockchain find
forged_accepted = refl

add_block_direct_cases_example :
    let (s', done) = add_block_direct whole hashes empty_chain forged in
    (verify_chain whole hashes s' ≡ (if done then is_rooted whole hashes forged else true))
    × IsOutcome whole hashes empty_chain (s', done)
add_block_direct_cases_example =
    add_block_direct_cases whole hashes empty_chain forged empty_chain-IsVerified

abbrev request : Request ℤ
request = record { transactions = payment ∷ []; validator = "v"; now = 7; nonces = nonces }

run-verify_chain_at :
    verify_chain whole hashes (run whole hashes empty_chain (request ∷ request ∷ [])) ≡ true
run-verify_chain_at = run-verify_chain whole hashes (request ∷ request ∷ [])

block_added : (add_block whole hashes empty_chain (payment ∷ []) "v" 7 nonces).1 ≡ true
unfolding add_block new_blockchain find
block_added = refl
