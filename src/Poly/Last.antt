-- ===== src/Poly/Last.antt =====
-- bank_crypto_project/src/poly1305/bank_poly1305_core.cpp: the tag after a last block of 16 bytes.
use blackstone.Prelude.{
  ℕ, ◌+◌, ◌%◌, ◌≡◌, refl, ap, ◌∙◌, Option, List, [], ◌∷◌, arith, length, sym, some,
}
use blackstone.Prelude.Words.{add64}
use blackstone.Poly.{
  Limbs, Poly1305, store, load, plus, carry, init, add_block, feed, update, final, block_words,
  multiply,
}
use blackstone.Poly.Buffer.{IsPoly, init-IsPoly, feed-IsFed, feed_block, block_added}

-- A state of the key: only the buffer differs from the first one.
abbrev pub IsKeyed : List ℕ → Poly1305 → Type 0
IsKeyed key p = IsPoly p × (p.r ≡ (init key).r) × (p.s ≡ (init key).s)

pub init-IsKeyed : (key : List ℕ) → IsKeyed key (init key)
init-IsKeyed key = (init-IsPoly key, refl, refl)

pub update-IsKeyed :
    (key bytes : List ℕ) (p : Poly1305)
    → IsKeyed key p
    → IsKeyed key (update bytes p) × ((update bytes p).buf_len ≡ (p.buf_len + length bytes) % 16)
unfolding update
update-IsKeyed key bytes p h = let f = feed-IsFed bytes p h.0 in ((f.0, f.1 ∙ h.1, f.2 ∙ h.2), f.3)

-- The number of bytes so far plays no part in the tag.
final-total : (t : ℕ) (p : Poly1305) → final (record p { total_len = t }) ≡ final p
unfolding final add_block
final-total t p = refl

-- The tag of one block under the words of a key.
abbrev pub block_tag : List ℕ → Limbs → Limbs → Option (List ℕ)
block_tag bytes r s = final (record {
  r = r;
  s = s;
  buf = store (multiply (carry (plus (load bytes) (block_words bytes 0))) r);
  buf_len = 0;
  total_len = 0;
})

-- The last block replaces whatever the buffer holds.
pub final-update :
    (key : List ℕ) (p : Poly1305) (bytes : List ℕ)
    → IsKeyed key p
    → p.buf_len ≡ 0
    → length bytes ≡ 16
    → final (update bytes p) ≡ block_tag bytes (init key).r (init key).s
unfolding update
final-update key p [] h k l = absurd (omega arith)
final-update key p (d ∷ ds) h k l =
    let fed = feed_block p d ds h.0 k (omega arith) in
    final-total (add64 (feed (d ∷ ds) p).total_len (length (d ∷ ds))) (feed (d ∷ ds) p)
    ∙ (ap final fed
        ∙ (sym (final-total 0 (block_added (d ∷ ds) p))
            ∙ (ap (λ r. block_tag (d ∷ ds) r p.s) h.1 ∙ ap (block_tag (d ∷ ds) (init key).r) h.2)))

-- With the buffer empty the tag has 16 bytes.
pub block_tag-some :
    (bytes : List ℕ) (r s : Limbs)
    → (tag : List ℕ) × (block_tag bytes r s ≡ some tag) × (length tag ≡ 16)
unfolding final
block_tag-some bytes r s = (_, refl, refl)
