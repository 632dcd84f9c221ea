-- ===== src/Chacha/Stream.antt =====
-- bank_crypto_project/src/chacha20/bank_chacha20_core.cpp: the stream of key bytes.
use blackstone.Prelude.{
  ℕ, zero, suc, ◌+◌, ◌*◌, ◌%◌, ◌^◌, ◌≤◌, ◌<◌, ◌∙◌, min, ◌≡◌, refl, ap, List, [], ◌∷◌, ◌++◌, arith,
  length, take, drop, All, All-append, length-append, length-set, length-drop,
}
use blackstone.Prelude.Bytes.{
  xor_bytes, xor_bytes_twice, length-xor_bytes, IsByte, little_endian, little_endian-IsByte,
}
use blackstone.Chacha.{
  Chacha20, quarter_at, rounds, words, input_words, output_words, block, encrypt_from, encrypt,
  add32,
}

-- The arrays of the context: 32 bytes of key and 12 of nonce.
abbrev pub IsContext : Chacha20 → Type 0
IsContext c = (length c.key ≡ 32) × (length c.nonce ≡ 12)

length-quarter_at : (i j k l : ℕ) (w : List ℕ) → length (quarter_at i j k l w) ≡ length w
length-quarter_at i j k l w = simp (length-set)

length-rounds : (n : ℕ) (w : List ℕ) → length (rounds n w) ≡ length w
unfolding rounds
length-rounds zero w = refl
length-rounds (suc n) w = simp (length-rounds n, length-quarter_at)

length-words : (n : ℕ) (bs : List ℕ) → length bs ≡ n * 4 → length (words bs) ≡ n
length-words zero [] h = refl
length-words (suc n) [] h = absurd (omega arith)
length-words n (a ∷ []) h = absurd (omega arith)
length-words n (a ∷ b ∷ []) h = absurd (omega arith)
length-words n (a ∷ b ∷ c ∷ []) h = absurd (omega arith)
length-words zero (a ∷ b ∷ c ∷ d ∷ bs) h = absurd (omega arith)
length-words (suc n) (a ∷ b ∷ c ∷ d ∷ bs) h = ap suc (length-words n bs (omega arith))

length-output_words :
    (ws xs : List ℕ) → length (output_words ws xs) ≡ min (length ws) (length xs) * 4
length-output_words [] xs = omega arith
length-output_words (w ∷ ws) [] = omega arith
length-output_words (w ∷ ws) (x ∷ xs) = omega (
  arith,
  length-append (little_endian 4 (add32 w x)) (output_words ws xs),
  length-output_words ws xs,
)

output_words-IsByte : (ws xs : List ℕ) → All IsByte (output_words ws xs)
output_words-IsByte [] xs = tt
output_words-IsByte (w ∷ ws) [] = tt
output_words-IsByte (w ∷ ws) (x ∷ xs) =
    All-append IsByte (little_endian 4 (add32 w x)) (output_words ws xs)
      (little_endian-IsByte 4 (add32 w x)) (output_words-IsByte ws xs)

length-input_words : (c : Chacha20) → IsContext c → length (input_words c) ≡ 16
length-input_words c h = omega (
  arith,
  length-words 8 c.key h.0,
  length-words 3 c.nonce h.1,
  length-append (words c.key) (c.counter ∷ words c.nonce),
)

pub length-block : (c : Chacha20) → IsContext c → length (block c).0 ≡ 64
unfolding block
length-block c h = omega (
  arith,
  length-output_words (rounds 10 (input_words c)) (input_words c),
  length-rounds 10 (input_words c),
  length-input_words c h,
)

block-IsByte : (c : Chacha20) → All IsByte (block c).0
unfolding block
block-IsByte c = output_words-IsByte (rounds 10 (input_words c)) (input_words c)

block-IsContext : (c : Chacha20) → IsContext c → IsContext (block c).1
unfolding block
block-IsContext c h = h

-- `n` blocks as the calls of `block` make them, one after the other.
abbrev pub block_stream : ℕ → Chacha20 → List ℕ
block_stream zero c = []
block_stream (suc n) c = (block c).0 ++ block_stream n (block c).1

length-block_stream : (n : ℕ) (c : Chacha20) → IsContext c → length (block_stream n c) ≡ n * 64
length-block_stream zero c h = refl
length-block_stream (suc n) c h = omega (
  arith,
  length-append (block c).0 (block_stream n (block c).1),
  length-block c h,
  length-block_stream n (block c).1 (block-IsContext c h),
)

pub block_stream-IsByte : (n : ℕ) (c : Chacha20) → All IsByte (block_stream n c)
block_stream-IsByte zero c = tt
block_stream-IsByte (suc n) c =
    All-append IsByte (block c).0 (block_stream n (block c).1) (block-IsByte c)
      (block_stream-IsByte n (block c).1)

xor_bytes-append :
    (n : ℕ) (xs ks ls : List ℕ)
    → length ks ≡ n
    → xor_bytes xs (ks ++ ls) ≡ xor_bytes (take n xs) ks ++ xor_bytes (drop n xs) ls
xor_bytes-append zero xs [] ls h = refl
xor_bytes-append zero xs (k ∷ ks) ls h = absurd (omega arith)
xor_bytes-append (suc n) xs [] ls h = absurd (omega arith)
xor_bytes-append (suc n) [] (k ∷ ks) ls h = refl
xor_bytes-append (suc n) (x ∷ xs) (k ∷ ks) ls h =
    rw (xor_bytes-append n xs ks ls (omega arith)) refl

encrypt_from-block_stream :
    (fuel n : ℕ) (c : Chacha20) (input : List ℕ)
    → IsContext c
    → length input ≤ fuel
    → length input ≤ n * 64
    → (encrypt_from fuel c input).0 ≡ xor_bytes input (block_stream n c)
unfolding encrypt_from
encrypt_from-block_stream zero n c [] h k l = refl
encrypt_from-block_stream zero n c (b ∷ bs) h k l = absurd (omega arith)
encrypt_from-block_stream (suc fuel) n c [] h k l = refl
encrypt_from-block_stream (suc fuel) zero c (b ∷ bs) h k l = absurd (omega arith)
encrypt_from-block_stream (suc fuel) (suc n) c (b ∷ bs) h k l =
    rw (xor_bytes-append 64 (b ∷ bs) (block c).0 (block_stream n (block c).1) (length-block c h)) (
      ap (λ r. xor_bytes (take 64 (b ∷ bs)) (block c).0 ++ r)
        (encrypt_from-block_stream fuel n (block c).1 (drop 64 (b ∷ bs)) (block-IsContext c h)
          (omega (arith, length-drop 64 (b ∷ bs))) (omega (arith, length-drop 64 (b ∷ bs)))))

pub encrypt-block_stream :
    (c : Chacha20) (n : ℕ) (input : List ℕ)
    → IsContext c
    → length input ≤ n * 64
    → (encrypt c input).0 ≡ xor_bytes input (block_stream n c)
unfolding encrypt
encrypt-block_stream c n input h k =
    encrypt_from-block_stream (length input) n c input h (omega arith) k

-- The bytes that the key and the nonce make with the counter w.
abbrev pub key_bytes : List ℕ → List ℕ → ℕ → List ℕ
key_bytes key nonce w =
    let x = input_words (record { key = key; nonce = nonce; counter = w }) in
    output_words (rounds 10 x) x

-- Those of the counters w + i, w + i + 1 and so on, n of them, modulo 2^32.
abbrev pub keystream : List ℕ → List ℕ → ℕ → ℕ → ℕ → List ℕ
keystream key nonce w i zero = []
keystream key nonce w i (suc n) =
    key_bytes key nonce ((w + i) % 2 ^ 32) ++ keystream key nonce w (suc i) n

block_stream-keystream :
    (n w i : ℕ) (c : Chacha20)
    → c.counter ≡ (w + i) % 2 ^ 32
    → block_stream n c ≡ keystream c.key c.nonce w i n
unfolding block
block_stream-keystream zero w i c h = refl
block_stream-keystream (suc n) w i c h =
    rw (block_stream-keystream n w (suc i) (block c).1 (omega arith))
      (ap (λ k. key_bytes c.key c.nonce k ++ keystream c.key c.nonce w (suc i) n) h)

-- The ciphertext of a message is the exclusive or of the message with the blocks of the counter,
-- the counter plus 1 and so on, modulo 2^32, as many as it takes: for a key of 32 bytes, a nonce of
-- 12 and a counter below 2^32.
pub encrypt-keystream :
    (c : Chacha20) (n : ℕ) (input : List ℕ)
    → IsContext c
    → c.counter < 2 ^ 32
    → length input ≤ n * 64
    → (encrypt c input).0 ≡ xor_bytes input (keystream c.key c.nonce c.counter 0 n)
encrypt-keystream c n input h small k =
    encrypt-block_stream c n input h k
    ∙ ap (xor_bytes input) (block_stream-keystream n c.counter 0 c (omega arith))

pub length-encrypt :
    (c : Chacha20) (input : List ℕ) → IsContext c → length (encrypt c input).0 ≡ length input
length-encrypt c input h = rw (encrypt-block_stream c (length input) input h (omega arith)) (
    omega (
      arith,
      length-xor_bytes input (block_stream (length input) c),
      length-block_stream (length input) c h,
    ))

-- Encrypting the ciphertext of a message of bytes from the same key, nonce and counter gives the
-- message: for a key of 32 bytes and a nonce of 12.
pub encrypt-encrypt :
    (c : Chacha20) (input : List ℕ)
    → IsContext c
    → All IsByte input
    → (encrypt c (encrypt c input).0).0 ≡ input
encrypt-encrypt c input h k =
    let n = length input in
    rw (encrypt-block_stream c n (encrypt c input).0 h (omega (arith, length-encrypt c input h))) (
      rw (encrypt-block_stream c n input h (omega arith)) (
        xor_bytes_twice input (block_stream n c) k (block_stream-IsByte n c)
          (omega (arith, length-block_stream n c h))))
