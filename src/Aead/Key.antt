-- ===== src/Aead/Key.antt =====
-- bank_crypto_project/src/chacha20/bank_chacha20_encrypt.cpp: the key of the tag.
use blackstone.Prelude.{
  ℕ, suc, ◌≤◌, ◌≡◌, ap, sym, ◌∙◌, List, arith, length, take, replicate, length-take, take-take,
  take-append, All, All-take, length-replicate,
}
use blackstone.Prelude.Bytes.{
  xor_bytes, xor_bytes_back, xor_bytes-replicate, take-xor_bytes, IsByte,
}
use blackstone.Chacha.{Chacha20, encrypt, block}
use blackstone.Chacha.Stream.{
  IsContext, encrypt-block_stream, encrypt-encrypt, block_stream, block_stream-IsByte, length-block,
}
use blackstone.Aead.{context, poly_key, encrypt_chacha20_poly1305}
use blackstone.Aead.Forgery.{context-IsContext}

first_block :
    (n : ℕ) (c : Chacha20) → IsContext c → take 32 (block_stream (suc n) c) ≡ take 32 (block c).0
first_block n c h =
    take-append 32 (block c).0 (block_stream n (block c).1) (omega (arith, length-block c h))

poly_key-block : (c : Chacha20) → IsContext c → poly_key c ≡ take 32 (block c).0
unfolding poly_key
poly_key-block c h =
    ap (take 32)
      (encrypt-block_stream c 1 (replicate 64 0) h (omega (arith, length-replicate {A = ℕ} 64 0)))
    ∙ ap (take 32) (xor_bytes-replicate 64 (block_stream 1 c))
    ∙ take-take 32 64 (block_stream 1 c) (omega arith)
    ∙ first_block 0 c h

-- The message of 32 bytes or more is encrypted from the block that also makes the key of the tag: the
-- exclusive or of the first 32 bytes of message and ciphertext is that key, for a key of 32 bytes and
-- a nonce of 12, or longer. Encrypting the ciphertext again gives the message.
pub poly_key_exposed :
    (key nonce aad plain : List ℕ)
    → 32 ≤ length key
    → 12 ≤ length nonce
    → All IsByte plain
    → 32 ≤ length plain
    → (xor_bytes (take 32 plain) (take 32 (encrypt_chacha20_poly1305 key nonce aad plain).0)
        ≡ poly_key (context key nonce))
      × ((encrypt (context key nonce) (encrypt_chacha20_poly1305 key nonce aad plain).0).0 ≡ plain)
unfolding encrypt_chacha20_poly1305
poly_key_exposed key nonce aad plain hk hn hb hp =
    let c = context key nonce in
    let h = context-IsContext key nonce hk hn in
    let n = length plain in
    let k = block_stream (suc n) c in
    (
      ap (λ t. xor_bytes (take 32 plain) (take 32 t))
            (encrypt-block_stream c (suc n) plain h (omega arith))
          ∙ ap (xor_bytes (take 32 plain)) (take-xor_bytes 32 plain k)
          ∙ xor_bytes_back (take 32 plain) (take 32 k) (All-take IsByte 32 plain hb)
              (All-take IsByte 32 k (block_stream-IsByte (suc n) c))
          ∙ ap (λ m. take m (take 32 k)) (length_first plain hp)
          ∙ take-take 32 32 k (omega arith)
          ∙ first_block n c h
          ∙ sym (poly_key-block c h),
      encrypt-encrypt c plain h hb,
    )
  where
    length_first : (plain : List ℕ) → 32 ≤ length plain → length (take 32 plain) ≡ 32
    length_first plain h = omega (arith, length-take 32 plain)
