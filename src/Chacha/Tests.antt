-- ===== src/Chacha/Tests.antt =====
-- Runs of bank_crypto_project/src/chacha20/bank_chacha20_core.cpp.
use blackstone.Prelude.{◌≡◌, refl, ℕ, List, ◌∷◌, arith, replicate, All}
use blackstone.Prelude.Bytes.{xor_bytes, IsByte}
use blackstone.Chacha.{Chacha20, quarter_round, encrypt, init, set_counter, get_counter}
use blackstone.Chacha.Stream.{encrypt-keystream, encrypt-encrypt, keystream}

-- The example of a quarter round in RFC 7539.
quarter_round_rfc :
    quarter_round 0x11111111 0x01020304 0x9b8d6f43 0x01234567
    ≡ (0xea2a92f4, 0xcb1cf8ce, 0x4581472e, 0x5881c4bb)
unfolding quarter_round
quarter_round_rfc = refl

abbrev first_context : Chacha20
first_context = record { key = replicate 32 5; nonce = replicate 12 9; counter = 1 }

abbrev message : List ℕ
message = 104 ∷ 105 ∷ replicate 68 7

encrypt-keystream_example :
    (encrypt first_context message).0
    ≡ xor_bytes message (keystream (replicate 32 5) (replicate 12 9) 1 0 2)
encrypt-keystream_example =
    encrypt-keystream first_context 2 message (refl, refl) (omega arith) (omega arith)

encrypt-encrypt_at : (encrypt first_context (encrypt first_context message).0).0 ≡ message
encrypt-encrypt_at = encrypt-encrypt first_context message (refl, refl) bytes
  where
    bytes : All IsByte message
    bytes = omega arith

counter_kept : get_counter (set_counter 3 (init (replicate 40 5) (replicate 12 9) 1)) ≡ 3
unfolding init set_counter
counter_kept = refl
