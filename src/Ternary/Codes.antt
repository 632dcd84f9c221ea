-- ===== src/Ternary/Codes.antt =====
-- Codes decode to the text they were made from.
use mathlib.Core.List.{reverse, reverse-cons, append_assoc, append-nil}
use mathlib.Core.Option.{map as option_map}
use blackstone.Prelude.{
  ℕ, zero, suc, ◌/◌, ◌%◌, ◌<◌, ◌≡◌, refl, ap, ◌∙◌, false, Option, none, some, List, [], ◌∷◌, ◌++◌,
  eqb, map, arith, Bool-cases, inl, inr, All, All-append,
}
use blackstone.Prelude.Int.{ℤ, pos, negsuc}
use blackstone.Ternary.{
  digits, to_ternary, from_ternary, from_balanced_ternary, digit_char, balanced_char, encode_binary,
  encode_balanced, read, read_all, digit_of, balanced_digit_of, to_byte, decode_ternary,
  decode_balanced,
}
use blackstone.Ternary.Numerals.{from_ternary-to_ternary, to_balanced_ternary-read, IsTrit}

-- The character of a digit is read as that digit.
abbrev IsRead : (ℕ → Option ℤ) → (ℤ → ℕ) → ℤ → Type 0
IsRead digit_of char_of d = (digit_of (char_of d) ≡ some d) × (eqb (char_of d) 124 ≡ false)

module _ (digit_of : ℕ → Option ℤ) (number : List ℤ → Option ℕ) (char_of : ℤ → ℕ) where
  read-digit :
      (d : ℤ) (cur : List ℤ) (out : List ℕ)
      → IsRead digit_of char_of d
      → read digit_of number (some (cur, out)) (char_of d) ≡ some (cur ++ d ∷ [], out)
  read-digit d cur out (h, bar) = rw (bar, h) refl

  read-chars :
      (ds cur : List ℤ) (out rest : List ℕ)
      → All (IsRead digit_of char_of) ds
      → read_all digit_of number (some (cur, out)) (map char_of ds ++ rest)
        ≡ read_all digit_of number (some (cur ++ ds, out)) rest
  unfolding read_all
  read-chars [] cur out rest h = rw (append-nil cur) refl
  read-chars (d ∷ ds) cur out rest (h, hs) =
      ap (λ s. read_all digit_of number s (map char_of ds ++ rest)) (read-digit d cur out h)
      ∙ (read-chars ds (cur ++ d ∷ []) out rest hs
          ∙ ap (λ c. read_all digit_of number (some (c, out)) rest) (append_assoc cur (d ∷ []) ds))

  -- One code word.
  read-word :
      (ds : List ℤ) (b : ℕ) (out rest : List ℕ)
      → All (IsRead digit_of char_of) ds
      → number ds ≡ some b
      → read_all digit_of number (some ([], out)) (map char_of ds ++ 124 ∷ rest)
        ≡ read_all digit_of number (some ([], out ++ b ∷ [])) rest
  unfolding read_all
  read-word ds b out rest h e = read-chars ds [] out (124 ∷ rest) h ∙ rw e refl

abbrev IsDigit : ℤ → Type 0
IsDigit = IsRead digit_of digit_char

digits-All : (fuel n : ℕ) → All IsDigit (digits fuel n)
unfolding digits
digits-All zero n = tt
digits-All (suc fuel) n = elim (Bool-cases (eqb n 0)) [
  | inl z ↦ rw z tt
  | inr nz ↦ rw nz ((ground arith, ground arith), digits-All fuel (n / 3))
]

reverse-digits : (ds : List ℤ) → All IsDigit ds → All IsDigit (reverse ds)
reverse-digits [] h = tt
reverse-digits (d ∷ ds) (h, hs) =
    rw (reverse-cons d ds) (All-append IsDigit (reverse ds) (d ∷ []) (reverse-digits ds hs) (h, tt))

to_ternary-All : (n : ℕ) → All IsDigit (to_ternary n)
unfolding to_ternary
to_ternary-All n = elim (Bool-cases (eqb n 0)) [
  | inl z ↦ rw z ((refl, refl), tt)
  | inr nz ↦ rw nz (reverse-digits (digits n n) (digits-All n n))
]

abbrev IsByte : ℕ → Type 0
IsByte c = c < 256

abbrev byte_of : List ℤ → Option ℕ
byte_of cur = some (from_ternary cur % 256)

decode-encode :
    (text out : List ℕ)
    → All IsByte text
    → read_all digit_of byte_of (some ([], out)) (encode_binary text) ≡ some ([], out ++ text)
unfolding encode_binary read_all
decode-encode [] out h = rw (append-nil out) refl
decode-encode (c ∷ text) out (h, hs) =
    read-word digit_of byte_of digit_char (to_ternary c) c out (encode_binary text)
      (to_ternary-All c) (ap some (rw (from_ternary-to_ternary c (omega arith)) (omega arith)))
    ∙ (decode-encode text (out ++ c ∷ []) hs
        ∙ ap (λ o. some ([], o)) (append_assoc out (c ∷ []) text))

-- Every text of bytes decodes from its ternary code.
pub decode_ternary-encode_binary :
    (text : List ℕ) → All (λ c. c < 256) text → decode_ternary (encode_binary text) ≡ some text
unfolding decode_ternary
decode_ternary-encode_binary text h = rw (decode-encode text [] h) refl

abbrev balanced_byte : List ℤ → Option ℕ
balanced_byte cur = option_map to_byte (from_balanced_ternary cur)

trit-IsRead : (d : ℤ) → IsTrit d → IsRead balanced_digit_of balanced_char d
trit-IsRead (pos zero) h = (refl, refl)
trit-IsRead (pos (suc n)) h = let z : n ≡ 0 = omega (arith, h.0) in rw z (refl, refl)
trit-IsRead (negsuc n) h = let z : n ≡ 0 = omega (arith, h.1) in rw z (refl, refl)

trits-IsRead : (ds : List ℤ) → All IsTrit ds → All (IsRead balanced_digit_of balanced_char) ds
trits-IsRead [] h = tt
trits-IsRead (d ∷ ds) (h, hs) = (trit-IsRead d h, trits-IsRead ds hs)

decode-encode_balanced :
    (text : List ℕ)
    → All IsByte text
    → (enc : List ℕ) × (encode_balanced text ≡ some enc)
      × ((out : List ℕ)
          → read_all balanced_digit_of balanced_byte (some ([], out)) enc ≡ some ([], out ++ text))
unfolding encode_balanced read_all
decode-encode_balanced [] h = ([], refl, λ out. rw (append-nil out) refl)
decode-encode_balanced (c ∷ text) (h, hs) =
    let (enc, e, back) = decode-encode_balanced text hs in
    let (ds, f, value, trits) = to_balanced_ternary-read (pos c) (omega arith, omega arith) in
    (
      map balanced_char ds ++ 124 ∷ enc,
      rw (f, e) refl,
      λ out.
          read-word balanced_digit_of balanced_byte balanced_char ds c out enc
            (trits-IsRead ds trits) (rw value (ap some (omega arith)))
          ∙ (back (out ++ c ∷ []) ∙ ap (λ o. some ([], o)) (append_assoc out (c ∷ []) text)),
    )

-- What comes of decoding a code that may not have been made.
abbrev pub decode_made : Option (List ℕ) → Option (List ℕ)
decode_made none = none
decode_made (some enc) = decode_balanced enc

-- Every text of bytes has a balanced code, and decodes from it.
pub decode_balanced-encode_balanced :
    (text : List ℕ) → All (λ c. c < 256) text → decode_made (encode_balanced text) ≡ some text
unfolding decode_balanced
decode_balanced-encode_balanced text h =
    let (enc, e, back) = decode-encode_balanced text h in rw e (rw (back []) refl)
