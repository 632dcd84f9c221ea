-- ===== src/Poly/Buffer.antt =====
-- bank_crypto_project/src/poly1305/bank_poly1305_core.cpp: what is left in the buffer.
use mathlib.Core.List.{append_assoc}
use blackstone.Prelude.{
  ℕ, suc, ◌+◌, ◌%◌, ◌<◌, ◌≡◌, refl, ap, sym, ◌∙◌, List, [], ◌∷◌, ◌++◌, arith, length, set, eqb,
  Bool-cases, inl, inr, length-append, length-set, eqb_iff, eqb_not, subst,
}
use blackstone.Poly.{
  Limbs, Poly1305, store, load, plus, multiply, carry, block_words, init, add_block, put_byte, feed,
}

-- The buffer has 16 bytes, and it is not full between the calls.
abbrev pub IsPoly : Poly1305 → Type 0
IsPoly p = (length p.buf ≡ 16) × (p.buf_len < 16)

pub init-IsPoly : (key : List ℕ) → IsPoly (init key)
unfolding init
init-IsPoly key = (refl, omega arith)

length-store : (h : Limbs) → length (store h) ≡ 16
length-store h = refl

-- What `feed` does to a state but for the contents of the buffer.
abbrev IsFed : ℕ → Poly1305 → Poly1305 → Type 0
IsFed n p q = IsPoly q × (q.r ≡ p.r) × (q.s ≡ p.s) × (q.buf_len ≡ (p.buf_len + n) % 16)

put_byte-IsFed : (b : ℕ) (p : Poly1305) → IsPoly p → IsFed 1 p (put_byte b p)
unfolding put_byte add_block
put_byte-IsFed b p h = elim (Bool-cases (eqb (p.buf_len + 1) 16)) [
  | inl e ↦ rw e ((refl, omega arith), refl, refl, ground arith)
  | inr e ↦ rw e ((length-set p.buf p.buf_len b ∙ h.0, ground arith), refl, refl, ground arith)
]

pub feed-IsFed : (bs : List ℕ) (p : Poly1305) → IsPoly p → IsFed (length bs) p (feed bs p)
unfolding feed
feed-IsFed [] p h = (h, refl, refl, omega arith)
feed-IsFed (b ∷ bs) p h =
    let one = put_byte-IsFed b p h in
    let rest = feed-IsFed bs (put_byte b p) one.0 in
    (rest.0, rest.1 ∙ one.1, rest.2 ∙ one.2, omega (arith, rest.3, one.3))

pub feed-append : (xs ys : List ℕ) (p : Poly1305) → feed (xs ++ ys) p ≡ feed ys (feed xs p)
unfolding feed
feed-append [] ys p = refl
feed-append (x ∷ xs) ys p = feed-append xs ys (put_byte x p)

set-append :
    (pre : List ℕ) (x b : ℕ) (post : List ℕ)
    → set (pre ++ x ∷ post) (length pre) b ≡ pre ++ b ∷ post
set-append [] x b post = refl
set-append (y ∷ pre) x b post = ap (λ t. y ∷ t) (set-append pre x b post)

abbrev pub holding : Poly1305 → List ℕ → ℕ → Poly1305
holding p bytes n = record p { buf = bytes; buf_len = n }

-- A block that is complete: it is added to the buffer that now holds it.
abbrev pub block_added : List ℕ → Poly1305 → Poly1305
block_added bytes p =
    holding p (store (multiply (carry (plus (load bytes) (block_words bytes 0))) p.r)) 0

subst2 : (P : List ℕ → List ℕ → Type 0) {a b c d : List ℕ} → a ≡ b → c ≡ d → P a c → P b d
subst2 P {a} {b} {c} {d} e f h = subst (λ x. P x d) e (subst (P a) f h)

feed_rest :
    (p : Poly1305) (pre ds post : List ℕ) (d : ℕ)
    → length post ≡ length ds
    → length pre + suc (length ds) ≡ 16
    → (x : ℕ)
    → feed (d ∷ ds) (holding p (pre ++ x ∷ post) (length pre)) ≡ block_added (pre ++ d ∷ ds) p
unfolding feed put_byte add_block
feed_rest p pre [] [] d h k x =
    rw (set-append pre x d []) (rw ((eqb_iff (length pre + 1) 16).1 (omega arith)) refl)
feed_rest p pre [] (y ∷ post) d h k x = absurd (omega arith)
feed_rest p pre (e ∷ ds) [] d h k x = absurd (omega arith)
feed_rest p pre (e ∷ ds) (y ∷ post) d h k x =
    let len = length-append pre (d ∷ []) in
    let step = feed_rest p (pre ++ d ∷ []) ds post e (omega arith) (omega (arith, len)) y in
    rw (set-append pre x d (y ∷ post), eqb_not (length pre + 1) 16 (omega arith))
      (subst
        (λ l. feed (e ∷ ds) (holding p (pre ++ d ∷ y ∷ post) l) ≡ block_added (pre ++ d ∷ e ∷ ds) p)
        len
        (subst2 (λ b c. feed (e ∷ ds) (holding p b (length (pre ++ d ∷ []))) ≡ block_added c p)
          (append_assoc pre (d ∷ []) (y ∷ post)) (append_assoc pre (d ∷ []) (e ∷ ds)) step))

feed_at :
    (p : Poly1305) (buf : List ℕ) (d : ℕ) (ds : List ℕ)
    → length buf ≡ 16
    → length ds ≡ 15
    → feed (d ∷ ds) (holding p buf 0) ≡ block_added (d ∷ ds) p
feed_at p [] d ds h l = absurd (omega arith)
feed_at p (x ∷ post) d ds h l = feed_rest p [] ds post d (omega arith) (omega arith) x

-- Sixteen bytes put into an empty buffer leave nothing of what it held.
pub feed_block :
    (p : Poly1305) (d : ℕ) (ds : List ℕ)
    → IsPoly p
    → p.buf_len ≡ 0
    → length ds ≡ 15
    → feed (d ∷ ds) p ≡ block_added (d ∷ ds) p
feed_block p d ds h k l =
    subst (λ n. feed (d ∷ ds) (holding p p.buf n) ≡ block_added (d ∷ ds) p) (sym k)
      (feed_at p p.buf d ds h.0 l)
