-- ===== src/Aead/Forgery.antt =====
-- bank_crypto_project/src/chacha20/bank_chacha20_encrypt.cpp: what the tag depends on.
use blackstone.Prelude.{
  ℕ, ◌-◌, ◌%◌, ◌≤◌, ◌≡◌, refl, ap, sym, ◌∙◌, Option, some, List, ◌++◌, arith, length, length-take,
  length-replicate,
}
use blackstone.Chacha.{encrypt}
use blackstone.Chacha.Stream.{IsContext, length-encrypt}
use blackstone.Poly.{Poly1305, init, update}
use blackstone.Poly.Last.{
  IsKeyed, init-IsKeyed, update-IsKeyed, final-update, block_tag, block_tag-some,
}
use blackstone.Aead.{context, poly_key, padding, bits, authenticate, encrypt_chacha20_poly1305}

pub padded-IsKeyed :
    (key bytes : List ℕ) (p : Poly1305)
    → IsKeyed key p
    → p.buf_len ≡ 0
    → IsKeyed key (update (padding (length bytes)) (update bytes p))
      × ((update (padding (length bytes)) (update bytes p)).buf_len ≡ 0)
padded-IsKeyed key bytes p h k =
    let one = update-IsKeyed key bytes p h in
    let two = update-IsKeyed key (padding (length bytes)) (update bytes p) one.0 in
    (two.0, omega (arith, two.1, one.1, length-replicate {A = ℕ} ((16 - length bytes % 16) % 16) 0))

pub context-IsContext :
    (key nonce : List ℕ) → 32 ≤ length key → 12 ≤ length nonce → IsContext (context key nonce)
context-IsContext key nonce h k =
    (omega (arith, length-take 32 key), omega (arith, length-take 12 nonce))

-- The tag that a call gives to lengths alone.
abbrev length_tag : List ℕ → ℕ → ℕ → Option (List ℕ)
length_tag key n m = block_tag (bits n ++ bits m) (init key).r (init key).s

authenticate_lem :
    (key aad cipher : List ℕ)
    → authenticate key aad cipher ≡ length_tag key (length aad) (length cipher)
unfolding authenticate
authenticate_lem key aad cipher =
    let one = padded-IsKeyed key aad (init key) (init-IsKeyed key) refl in
    let p = update (padding (length aad)) (update aad (init key)) in
    let two = padded-IsKeyed key cipher p one.0 one.1 in
    final-update key (update (padding (length cipher)) (update cipher p))
      (bits (length aad) ++ bits (length cipher)) two.0 two.1 refl

-- For a key of 32 bytes and a nonce of 12, or longer, bank_encrypt_chacha20_poly1305 returns a tag of
-- 16 bytes, and the tag of any other ciphertext and associated data of the same lengths is that tag:
-- it depends on the lengths alone.
pub tag-lengths :
    (key nonce aad aad' plain cipher : List ℕ)
    → 32 ≤ length key
    → 12 ≤ length nonce
    → length aad' ≡ length aad
    → length cipher ≡ length plain
    → (tag : List ℕ) × ((encrypt_chacha20_poly1305 key nonce aad plain).1 ≡ some tag)
      × (length tag ≡ 16)
      × (authenticate (poly_key (context key nonce)) aad' cipher ≡ some tag)
unfolding encrypt_chacha20_poly1305
tag-lengths key nonce aad aad' plain cipher hk hn ha hc =
    let c = context key nonce in
    let own = (encrypt c plain).0 in
    let sent = length-encrypt c plain (context-IsContext key nonce hk hn) in
    let k = poly_key c in
    let tag = block_tag-some (bits (length aad) ++ bits (length own)) (init k).r (init k).s in
    (
      tag.0,
      authenticate_lem k aad own ∙ tag.1,
      tag.2,
      authenticate_lem k aad' cipher
          ∙ ap (λ n. length_tag k n (length cipher)) ha
          ∙ ap (length_tag k (length aad)) (hc ∙ sym sent)
          ∙ tag.1,
    )
