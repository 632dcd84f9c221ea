-- ===== src/Validator/Tests.antt =====
-- Blocks that are checked, with hash functions that make every block hard enough.
use blackstone.Prelude.{◌≡◌, refl, true, [], ◌∷◌, ◌&&◌, arith}
use blackstone.Prelude.Int.{ℤ, pos, ◌+ℤ◌, ◌-ℤ◌, ltb_ℤ, leb_ℤ}
use blackstone.Blocks.{Doubles, Hashes, Block, mine_block, mine_from, calculate_hash}
use blackstone.Validator.{has_structure, calculate_next_difficulty, validate_after}
use blackstone.Validator.Mined.{mine_block-valid}

abbrev whole : Doubles ℤ
whole = record {
  zero_double = pos 0;
  add = ◌+ℤ◌;
  sub = ◌-ℤ◌;
  times = λ a b. a;
  negate = λ a. pos 0 -ℤ a;
  less = ltb_ℤ;
  at_most = leb_ℤ;
  same = λ a b. leb_ℤ a b && leb_ℤ b a;
  print = λ d. "0";
}

abbrev hashes : Hashes
hashes = record { sha1 = λ s. s; sha1_double = λ s. "0000ab"; sha1_hmac = λ key s. key }

abbrev first : Block ℤ
first = record {
  index = pos 0;
  previous_hash = "g";
  timestamp = 1;
  transactions = [];
  merkle_root = "m";
  hash = "0000ab";
  nonce = 0;
  validator = "v";
  difficulty = 4;
  version = "";
}

abbrev second : Block ℤ
second = record first { index = pos 1; previous_hash = "0000ab"; timestamp = 2 }

mine_block-valid_example :
    validate_after whole hashes first (mine_block whole hashes (λ i. i) 4 3 second).0 ≡ true
unfolding mine_block mine_from calculate_hash ◌+ℤ◌
mine_block-valid_example =
    mine_block-valid whole hashes (λ i. i) 4 3 first second refl refl (omega arith) refl

structured : has_structure second ≡ true
unfolding has_structure
structured = refl

-- Blocks whose times go back: the difference wraps, and half of 2^64 - 10 is -5 as an `int`.
slow_blocks :
    calculate_next_difficulty
      (record first { timestamp = 20 } ∷ second ∷ record first { timestamp = 10 } ∷ [])
      1000
    ≡ 5
unfolding calculate_next_difficulty
slow_blocks = refl
