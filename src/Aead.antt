-- ===== src/Aead.antt =====
-- bank_crypto_project/src/chacha20/bank_chacha20_encrypt.cpp. The contexts on the stack that the
-- call clears before it returns are not seen by the caller.
pub mod Forgery
pub mod Key
mod Tests
use blackstone.Prelude.{ℕ, ◌+◌, ◌-◌, ◌*◌, ◌%◌, Option, List, ◌++◌, length, take, replicate}
use blackstone.Prelude.Bytes.{little_endian}
use blackstone.Prelude.Words.{word}
use blackstone.Chacha.{Chacha20, encrypt}
use blackstone.Poly.{Poly1305, init, update, final}

abbrev pub context : List ℕ → List ℕ → Chacha20
context key nonce = record { key = take 32 key; nonce = take 12 nonce; counter = 0 }

-- The first half of the block of counter 0.
unfoldable pub poly_key : Chacha20 → List ℕ
unfolding encrypt
poly_key c = take 32 (encrypt c (replicate 64 0)).0

abbrev pub padding : ℕ → List ℕ
padding n = replicate ((16 - n % 16) % 16) 0

abbrev pub bits : ℕ → List ℕ
bits n = little_endian 8 (n * 8 % word)

-- The tag of a ciphertext and its associated data.
pub authenticate : List ℕ → List ℕ → List ℕ → Option (List ℕ)
unfolding init update final
authenticate poly_key aad cipher = final (
    update (bits (length aad) ++ bits (length cipher)) (
      update (padding (length cipher))
        (update cipher (update (padding (length aad)) (update aad (init poly_key))))))

unfoldable pub encrypt_chacha20_poly1305 :
    List ℕ → List ℕ → List ℕ → List ℕ → List ℕ × Option (List ℕ)
unfolding encrypt authenticate poly_key
encrypt_chacha20_poly1305 key nonce aad plain =
    let c = context key nonce in
    let cipher = (encrypt c plain).0 in (cipher, authenticate (poly_key c) aad cipher)
