-- ===== src/Chacha.antt =====
-- bank_crypto_project/src/chacha20/bank_chacha20_core.cpp. The keys, nonces and messages are lists
-- of bytes, and `uint32_t` wraps at 2^32. Two words that have no bit in common are joined by `+`.
pub mod Stream
mod Tests
use Prim.Native.Nat.{bit_xor}
use blackstone.Prelude.{
  ℕ, zero, suc, ◌+◌, ◌*◌, ◌/◌, ◌%◌, ◌^◌, List, [], ◌∷◌, ◌++◌, length, set, take, drop,
}
use blackstone.Prelude.Bytes.{xor_bytes, little_endian, byte_at}

pub record Chacha20 : Type 0 where
  pub key : List ℕ
  pub nonce : List ℕ
  pub counter : ℕ

pub init : List ℕ → List ℕ → ℕ → Chacha20
init key nonce counter = record { key = take 32 key; nonce = take 12 nonce; counter = counter }

pub set_counter : ℕ → Chacha20 → Chacha20
set_counter counter c = record c { counter = counter }

abbrev pub get_counter : Chacha20 → ℕ
get_counter c = c.counter

abbrev pub add32 : ℕ → ℕ → ℕ
add32 a b = (a + b) % 2 ^ 32

-- Left by n bits and right by m, where n + m is 32.
abbrev pub rotate : ℕ → ℕ → ℕ → ℕ
rotate n m w = w * 2 ^ n % 2 ^ 32 + w / 2 ^ m

pub quarter_round : ℕ → ℕ → ℕ → ℕ → ℕ × ℕ × ℕ × ℕ
quarter_round a b c d =
    let a = add32 a b in
    let d = rotate 16 16 (bit_xor d a) in
    let c = add32 c d in
    let b = rotate 12 20 (bit_xor b c) in
    let a = add32 a b in
    let d = rotate 8 24 (bit_xor d a) in
    let c = add32 c d in let b = rotate 7 25 (bit_xor b c) in (a, b, c, d)

abbrev pub quarter_at : ℕ → ℕ → ℕ → ℕ → List ℕ → List ℕ
quarter_at i j k l w =
    let q = quarter_round (byte_at w i) (byte_at w j) (byte_at w k) (byte_at w l) in
    set (set (set (set w i q.0) j q.1) k q.2) l q.3

-- Ten times: the four columns and the four diagonals.
pub rounds : ℕ → List ℕ → List ℕ
unfolding quarter_round
rounds zero w = w
rounds (suc n) w = rounds n (
    quarter_at 3 4 9 14 (
      quarter_at 2 7 8 13 (
        quarter_at 1 6 11 12 (
          quarter_at 0 5 10 15 (
            quarter_at 3 7 11 15
              (quarter_at 2 6 10 14 (quarter_at 1 5 9 13 (quarter_at 0 4 8 12 w))))))))

-- Four bytes a word, the highest one first.
abbrev pub words : List ℕ → List ℕ
words (a ∷ b ∷ c ∷ d ∷ bs) = (a * 2 ^ 24 + b * 2 ^ 16 + c * 2 ^ 8 + d) ∷ words bs
words bs = []

abbrev pub input_words : Chacha20 → List ℕ
input_words c =
    0x61707865 ∷ 0x3320646e ∷ 0x79622d32 ∷ 0x6b206574 ∷ words c.key ++ c.counter ∷ words c.nonce

abbrev pub output_words : List ℕ → List ℕ → List ℕ
output_words (w ∷ ws) (x ∷ xs) = little_endian 4 (add32 w x) ++ output_words ws xs
output_words ws xs = []

pub block : Chacha20 → List ℕ × Chacha20
unfolding rounds
block c =
    let x = input_words c in
    (output_words (rounds 10 x) x, record c { counter = add32 c.counter 1 })

-- The loop, with at most `fuel` blocks to go.
pub encrypt_from : ℕ → Chacha20 → List ℕ → List ℕ × Chacha20
unfolding block
encrypt_from zero c input = ([], c)
encrypt_from (suc fuel) c [] = ([], c)
encrypt_from (suc fuel) c (b ∷ bs) =
    let k = block c in
    let rest = encrypt_from fuel k.1 (drop 64 (b ∷ bs)) in
    (xor_bytes (take 64 (b ∷ bs)) k.0 ++ rest.0, rest.1)

unfoldable pub encrypt : Chacha20 → List ℕ → List ℕ × Chacha20
unfolding encrypt_from
encrypt c input = encrypt_from (length input) c input
