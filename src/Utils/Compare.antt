-- ===== src/Utils/Compare.antt =====
-- bank_crypto_project/src/utils/bank_utils.cpp: the comparison that does not stop early.
use Prim.Native.Nat.{bit_or, bit_xor}
use blackstone.Prelude.{
  ℕ, ◌<◌, ◌≡◌, ◌↔◌, refl, ap, sym, ◌∙◌, Bool, true, false, ◌&&◌, List, [], ◌∷◌, arith, eqb, ltb,
  length, All,
}
use blackstone.Prelude.Bytes.{IsByte, pair_passes-at}
use blackstone.Utils.{differences, secure_compare}

abbrev agree : Bool → Bool → Bool
agree true b = b
agree false true = false
agree false false = true

agree_eq : (a b c : Bool) → (agree a b && c) ≡ true → (a ≡ b) × (c ≡ true)
agree_eq true true c h = (refl, ground arith)
agree_eq true false c h = cc
agree_eq false true c h = cc
agree_eq false false c h = (refl, ground arith)

or_zero :
    (x k : ℕ) → x < 256 → k < 256 → (eqb (bit_or x k) 0 ≡ (eqb x 0 && eqb k 0)) × (bit_or x k < 256)
or_zero x k hx hk =
    let r = agree_eq (eqb (bit_or x k) 0) (eqb x 0 && eqb k 0) (ltb (bit_or x k) 256) (
      pair_passes-at
        (λ y m. agree (eqb (bit_or y m) 0) (eqb y 0 && eqb m 0) && ltb (bit_or y m) 256) hx hk
        refl) in
    (r.0, ground arith)

xor_zero : (x k : ℕ) → x < 256 → k < 256 → (eqb (bit_xor x k) 0 ≡ eqb x k) × (bit_xor x k < 256)
xor_zero x k hx hk =
    let r = agree_eq (eqb (bit_xor x k) 0) (eqb x k) (ltb (bit_xor x k) 256) (
      pair_passes-at (λ y m. agree (eqb (bit_xor y m) 0) (eqb y m) && ltb (bit_xor y m) 256) hx hk
        refl) in
    (r.0, ground arith)

-- The comparison that stops at the first difference.
abbrev pub equal_bytes : List ℕ → List ℕ → Bool
equal_bytes [] bs = true
equal_bytes (a ∷ xs) [] = true
equal_bytes (a ∷ xs) (b ∷ bs) = eqb a b && equal_bytes xs bs

differences-zero :
    (result : ℕ) (xs bs : List ℕ)
    → result < 256
    → All IsByte xs
    → All IsByte bs
    → eqb (differences result xs bs) 0 ≡ (eqb result 0 && equal_bytes xs bs)
differences-zero result [] bs h k l = ground arith
differences-zero result (a ∷ xs) [] h k l = ground arith
differences-zero result (a ∷ xs) (b ∷ bs) h k l =
    let x = xor_zero a b k.0 l.0 in
    let o = or_zero result (bit_xor a b) h x.1 in
    ground (arith, differences-zero (bit_or result (bit_xor a b)) xs bs o.1 k.1 l.1, o.0, x.0)

equal_bytes_refl : (xs : List ℕ) → equal_bytes xs xs ≡ true
equal_bytes_refl [] = refl
equal_bytes_refl (x ∷ xs) = ground (arith, equal_bytes_refl xs)

equal_bytes-eq : (xs bs : List ℕ) → length xs ≡ length bs → equal_bytes xs bs ≡ true → xs ≡ bs
equal_bytes-eq [] [] h e = refl
equal_bytes-eq [] (b ∷ bs) h e = absurd (omega arith)
equal_bytes-eq (x ∷ xs) [] h e = absurd (omega arith)
equal_bytes-eq (x ∷ xs) (b ∷ bs) h e =
    let rest = equal_bytes-eq xs bs (omega arith) (ground arith) in
    let first : x ≡ b = ground arith in rw (first, rest) refl

-- On two arrays of bytes of one length bank_secure_compare, which looks at every byte, says what a
-- comparison that stops at the first difference says: whether they are the same.
pub secure_compare_iff :
    (xs bs : List ℕ)
    → All IsByte xs
    → All IsByte bs
    → length xs ≡ length bs
    → (secure_compare xs bs ≡ equal_bytes xs bs) × ((secure_compare xs bs ≡ true) ↔ (xs ≡ bs))
unfolding secure_compare
secure_compare_iff xs bs h k l =
    let same = differences-zero 0 xs bs (omega arith) h k in
    let agrees : secure_compare xs bs ≡ equal_bytes xs bs = same in
    (
      agrees,
      (
        λ e. equal_bytes-eq xs bs l (sym agrees ∙ e),
        λ e. agrees ∙ ap (equal_bytes xs) (sym e) ∙ equal_bytes_refl xs,
      ),
    )
