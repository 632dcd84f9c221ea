-- ===== src/Ternary/Numerals.antt =====
-- Numerals read back what was written.
use mathlib.Core.List.{reverse, reverse-cons}
use blackstone.Prelude.{
  ℕ, zero, suc, ◌+◌, ◌-◌, ◌*◌, ◌/◌, ◌%◌, ◌^◌, ◌<◌, ◌≤◌, ◌≡◌, refl, ap, false, Option, none, some,
  List, [], ◌∷◌, ◌++◌, eqb, if◌then◌else◌, arith, Bool-cases, inl, inr, All, All-append,
}
use blackstone.Prelude.Words.{word}
use blackstone.Prelude.Int.{ℤ, pos, negsuc, pos_part, neg_part, ◌+ℤ◌, ◌-ℤ◌, eqb_ℤ, eq_of_parts}
use blackstone.Ternary.{
  rem3, div3, balanced_digit, balanced_rest, balanced_digits, or_zero, to_balanced_ternary,
  append_digit, from_balanced, from_balanced_ternary, digits, to_ternary, to_word, from_digits,
  from_ternary,
}

from_digits-append :
    (v : ℕ) (xs : List ℤ) (d : ℤ)
    → from_digits v (xs ++ d ∷ []) ≡ (from_digits v xs * 3 + to_word d) % word
unfolding from_digits
from_digits-append v [] d = refl
from_digits-append v (x ∷ xs) d = from_digits-append ((v * 3 + to_word x) % word) xs d

from_digits-digits :
    (fuel n : ℕ) → n ≤ fuel → n < word → from_digits 0 (reverse (digits fuel n)) ≡ n
unfolding digits from_digits
from_digits-digits zero n h k = omega arith
from_digits-digits (suc fuel) n h k = elim (Bool-cases (eqb n 0)) [
  | inl z ↦ rw z (ground arith)
  | inr nz ↦
      let rest = digits fuel (n / 3) in
      let smaller : n / 3 ≤ fuel = ground arith in
      rw nz (
        rw (reverse-cons (pos (n % 3)) rest) (
          rw
            (
              from_digits-append 0 (reverse rest) (pos (n % 3)),
              from_digits-digits fuel (n / 3) smaller (omega arith),
            )
            (omega arith)))
]

-- The ternary numeral of a 64-bit number reads back as that number.
pub from_ternary-to_ternary : (n : ℕ) → n < word → from_ternary (to_ternary n) ≡ n
unfolding to_ternary from_ternary from_digits
from_ternary-to_ternary n h = elim (Bool-cases (eqb n 0)) [
  | inl z ↦ rw z (ground arith)
  | inr nz ↦ rw nz (from_digits-digits n n (omega arith) h)
]

abbrev pub IsInside : ℤ → Type 0
IsInside n = (pos_part n < 2 ^ 63) × (neg_part n < 2 ^ 63)

abbrev magnitude : ℤ → ℕ
magnitude n = pos_part n + neg_part n

abbrev nearest : ℤ → ℤ
nearest n =
    if eqb_ℤ (rem3 n) (pos 2)
    then n +ℤ pos 1
    else if eqb_ℤ (rem3 n) (negsuc 1)
    then n -ℤ pos 1
    else n

balanced_rest-eq : (n : ℤ) → IsInside n → balanced_rest n ≡ some (nearest n)
unfolding ◌+ℤ◌ ◌-ℤ◌
balanced_rest-eq (pos n) h = ground arith
balanced_rest-eq (negsuc n) h = ground arith

nearest-less : (n : ℤ) → eqb_ℤ n (pos 0) ≡ false → magnitude (div3 (nearest n)) < magnitude n
unfolding ◌+ℤ◌ ◌-ℤ◌
nearest-less (pos n) h = ground arith
nearest-less (negsuc n) h = ground arith

nearest-join :
    (n : ℤ) → IsInside n → append_digit (some (div3 (nearest n))) (balanced_digit n) ≡ some n
unfolding ◌+ℤ◌ ◌-ℤ◌
nearest-join (pos n) h = ground arith
nearest-join (negsuc n) h = ground arith

from_balanced-append :
    (v : Option ℤ) (xs : List ℤ) (d : ℤ)
    → from_balanced v (xs ++ d ∷ []) ≡ append_digit (from_balanced v xs) d
unfolding from_balanced
from_balanced-append v [] d = refl
from_balanced-append v (x ∷ xs) d = from_balanced-append (append_digit v x) xs d

div3-IsInside : (n : ℤ) → IsInside n → IsInside (div3 (nearest n))
unfolding ◌+ℤ◌ ◌-ℤ◌
div3-IsInside (pos n) h = ground arith
div3-IsInside (negsuc n) h = ground arith

-- A digit of a balanced numeral.
abbrev pub IsTrit : ℤ → Type 0
IsTrit d = (pos_part d ≤ 1) × (neg_part d ≤ 1)

balanced_digit-IsTrit : (n : ℤ) → IsTrit (balanced_digit n)
balanced_digit-IsTrit (pos n) = ground arith
balanced_digit-IsTrit (negsuc n) = ground arith

-- What the digits of a number are, and that they read back.
balanced_digits-read :
    (fuel : ℕ) (n : ℤ)
    → magnitude n ≤ fuel
    → IsInside n
    → (ds : List ℤ) × (balanced_digits fuel (some n) ≡ some ds)
      × (from_balanced (some (pos 0)) (reverse ds) ≡ some n)
      × All IsTrit ds
unfolding balanced_digits from_balanced
balanced_digits-read zero n h k = ([], refl, ap some (ground (arith, eq_of_parts (pos 0) n)), tt)
balanced_digits-read (suc fuel) n h k = elim (Bool-cases (eqb_ℤ n (pos 0))) [
  | inl z ↦ ([], rw z refl, ap some (ground (arith, eq_of_parts (pos 0) n)), tt)
  | inr nz ↦
      let less = nearest-less n nz in
      let next = div3 (nearest n) in
      let (ds, e, back, trits) =
        balanced_digits-read fuel next (omega (arith, less)) (div3-IsInside n k) in
      (
        balanced_digit n ∷ ds,
        rw (nz, balanced_rest-eq n k) (rw e refl),
        rw (reverse-cons (balanced_digit n) ds) (
            rw (from_balanced-append (some (pos 0)) (reverse ds) (balanced_digit n), back)
              (nearest-join n k)),
        (balanced_digit-IsTrit n, trits),
      )
]

-- What comes of writing a number in balanced ternary and reading the numeral.
abbrev pub read_back : Option (List ℤ) → Option ℤ
read_back none = none
read_back (some ds) = from_balanced_ternary ds

reverse-All : (ds : List ℤ) → All IsTrit ds → All IsTrit (reverse ds)
reverse-All [] h = tt
reverse-All (d ∷ ds) (h, hs) =
    rw (reverse-cons d ds) (All-append IsTrit (reverse ds) (d ∷ []) (reverse-All ds hs) (h, tt))

or_zero-All : (ds : List ℤ) → All IsTrit ds → All IsTrit (or_zero ds)
or_zero-All [] h = ((omega arith, omega arith), tt)
or_zero-All (d ∷ ds) h = h

or_zero-read :
    (ds : List ℤ)
    → from_balanced (some (pos 0)) (reverse (or_zero ds))
      ≡ from_balanced (some (pos 0)) (reverse ds)
unfolding from_balanced ◌+ℤ◌
or_zero-read [] = refl
or_zero-read (d ∷ ds) = refl

pub to_balanced_ternary-read :
    (n : ℤ)
    → IsInside n
    → (ds : List ℤ) × (to_balanced_ternary n ≡ some ds)
      × (from_balanced_ternary ds ≡ some n)
      × All IsTrit ds
unfolding to_balanced_ternary from_balanced_ternary
to_balanced_ternary-read n h =
    let (ds, e, back, trits) = balanced_digits-read (magnitude n) n (omega arith) h in
    (
      reverse (or_zero ds),
      rw e refl,
      rw (or_zero-read ds) back,
      reverse-All (or_zero ds) (or_zero-All ds trits),
    )

overflow : balanced_digits (2 ^ 63) (some (negsuc (2 ^ 63 - 1))) ≡ none
unfolding balanced_digits ◌-ℤ◌
overflow = refl

-- A number from -2^63 + 1 to 2^63 - 1 is written in balanced ternary and read back without overflow,
-- as itself; writing -2^63 overflows.
pub from-to_balanced_ternary :
    (n : ℤ)
    → pos_part n < 2 ^ 63
    → neg_part n ≤ 2 ^ 63
    → read_back (to_balanced_ternary n) ≡ (if eqb (neg_part n) (2 ^ 63) then none else some n)
unfolding to_balanced_ternary
from-to_balanced_ternary n h k = elim (Bool-cases (eqb (neg_part n) (2 ^ 63))) [
  | inl low ↦
      let same : n ≡ negsuc (2 ^ 63 - 1) = eq_of_parts n (negsuc (2 ^ 63 - 1)) (ground arith) in
      rw (low, same, overflow) refl
  | inr inside ↦
      let (ds, e, back, trits) = to_balanced_ternary-read n (h, ground arith) in rw (inside, e) back
]
