-- ===== src/Aead/Tests.antt =====
-- Calls of bank_encrypt_chacha20_poly1305 at concrete inputs.
use blackstone.Prelude.{◌≡◌, ℕ, List, [], ◌∷◌, arith, replicate, length, take, All, some}
use blackstone.Prelude.Bytes.{xor_bytes, IsByte}
use blackstone.Chacha.{encrypt}
use blackstone.Aead.{context, poly_key, authenticate, encrypt_chacha20_poly1305}
use blackstone.Aead.Forgery.{tag-lengths}
use blackstone.Aead.Key.{poly_key_exposed}

abbrev key : List ℕ
key = replicate 32 3

abbrev nonce : List ℕ
nonce = replicate 12 4

abbrev message : List ℕ
message = replicate 40 65

tag-lengths_example :
    (tag : List ℕ) × ((encrypt_chacha20_poly1305 key nonce (1 ∷ 2 ∷ []) message).1 ≡ some tag)
    × (length tag ≡ 16)
    × (authenticate (poly_key (context key nonce)) (8 ∷ 9 ∷ []) (replicate 40 0) ≡ some tag)
tag-lengths_example =
    tag-lengths key nonce (1 ∷ 2 ∷ []) (8 ∷ 9 ∷ []) message (replicate 40 0) (omega arith)
      (omega arith) (omega arith) (omega arith)

poly_key_exposed_example :
    (xor_bytes (take 32 message) (take 32 (encrypt_chacha20_poly1305 key nonce [] message).0)
      ≡ poly_key (context key nonce))
    × ((encrypt (context key nonce) (encrypt_chacha20_poly1305 key nonce [] message).0).0 ≡ message)
poly_key_exposed_example =
    poly_key_exposed key nonce [] message (omega arith) (omega arith) bytes (omega arith)
  where
    bytes : All IsByte message
    bytes = search arith
