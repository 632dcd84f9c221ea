-- ===== src/Ternary.antt =====
-- p2p_banking_system/core/ternary.h and ternary.cpp: ternary numerals and the codes made of them. A
-- string is the list of its bytes. `int64_t` arithmetic that leaves its range is undefined and is
-- `none` here; `uint64_t` arithmetic wraps.
pub mod Numerals
pub mod Codes
pub mod Tree
pub mod Root
mod Tests
use mathlib.Core.List.{reverse}
use mathlib.Core.Option.{map as option_map}
use blackstone.Prelude.{
  ℕ, zero, suc, ◌+◌, ◌-◌, ◌*◌, ◌/◌, ◌%◌, ◌^◌, Bool, true, false, ◌&&◌, Option, none, some, List, [],
  ◌∷◌, ◌++◌, eqb, leb, ltb, if◌then◌else◌, map,
}
use blackstone.Prelude.Words.{word}
use blackstone.Prelude.Int.{ℤ, pos, negsuc, sub_ℕ, pos_part, neg_part, ◌+ℤ◌, ◌-ℤ◌, eqb_ℤ}

abbrev pub checked : ℤ → Option ℤ
checked n = if ltb (pos_part n) (2 ^ 63) && leb (neg_part n) (2 ^ 63) then some n else none

-- Division and remainder truncate towards zero.
abbrev pub rem3 : ℤ → ℤ
rem3 (pos n) = pos (n % 3)
rem3 (negsuc n) = sub_ℕ 0 (suc n % 3)

abbrev pub div3 : ℤ → ℤ
div3 (pos n) = pos (n / 3)
div3 (negsuc n) = sub_ℕ 0 (suc n / 3)

abbrev pub times3 : ℤ → ℤ
times3 (pos n) = pos (n * 3)
times3 (negsuc n) = sub_ℕ 0 (suc n * 3)

-- `r` and `n` after the two tests of the loop.
abbrev pub balanced_digit : ℤ → ℤ
balanced_digit n =
    if eqb_ℤ (rem3 n) (pos 2) then negsuc 0 else if eqb_ℤ (rem3 n) (negsuc 1) then pos 1 else rem3 n

abbrev pub balanced_rest : ℤ → Option ℤ
balanced_rest n =
    if eqb_ℤ (rem3 n) (pos 2)
    then checked (n +ℤ pos 1)
    else if eqb_ℤ (rem3 n) (negsuc 1)
    then checked (n -ℤ pos 1)
    else some n

abbrev pub push_digit : ℤ → Option (List ℤ) → Option (List ℤ)
push_digit d none = none
push_digit d (some ds) = some (d ∷ ds)

-- `while (n != 0)`, the digits in the order in which they are pushed. The quotient of n is nearer
-- to zero, so as many rounds as its magnitude are enough.
pub balanced_digits : ℕ → Option ℤ → Option (List ℤ)
balanced_digits fuel none = none
balanced_digits zero (some n) = some []
balanced_digits (suc fuel) (some n) =
    let rest = balanced_digits fuel (option_map div3 (balanced_rest n)) in
    if eqb_ℤ n (pos 0) then some [] else push_digit (balanced_digit n) rest

abbrev pub or_zero : List ℤ → List ℤ
or_zero [] = pos 0 ∷ []
or_zero (d ∷ ds) = d ∷ ds

pub to_balanced_ternary : ℤ → Option (List ℤ)
unfolding balanced_digits
to_balanced_ternary n =
    option_map (λ ds. reverse (or_zero ds)) (balanced_digits (pos_part n + neg_part n) (some n))

abbrev pub join : Option ℤ → ℤ → Option ℤ
join none d = none
join (some v) d = checked (v +ℤ d)

abbrev pub append_digit : Option ℤ → ℤ → Option ℤ
append_digit none d = none
append_digit (some v) d = join (checked (times3 v)) d

pub from_balanced : Option ℤ → List ℤ → Option ℤ
from_balanced v [] = v
from_balanced v (d ∷ ds) = from_balanced (append_digit v d) ds

pub from_balanced_ternary : List ℤ → Option ℤ
unfolding from_balanced
from_balanced_ternary t = from_balanced (some (pos 0)) t

-- `while (n > 0)`
pub digits : ℕ → ℕ → List ℤ
digits zero n = []
digits (suc fuel) n = let rest = digits fuel (n / 3) in if eqb n 0 then [] else pos (n % 3) ∷ rest

pub to_ternary : ℕ → List ℤ
unfolding digits
to_ternary n = reverse (if eqb n 0 then pos 0 ∷ [] else digits n n)

-- An `int` converted to `uint64_t`.
abbrev pub to_word : ℤ → ℕ
to_word (pos n) = n % word
to_word (negsuc n) = word - 1 - n % word

pub from_digits : ℕ → List ℤ → ℕ
from_digits v [] = v
from_digits v (d ∷ ds) = from_digits ((v * 3 + to_word d) % word) ds

pub from_ternary : List ℤ → ℕ
unfolding from_digits
from_ternary t = from_digits 0 t

-- `'0' + x`, and `'T'` for -1 in the balanced code
abbrev pub digit_char : ℤ → ℕ
digit_char (pos n) = 48 + n
digit_char (negsuc n) = 47 - n

abbrev pub balanced_char : ℤ → ℕ
balanced_char x = if eqb_ℤ x (negsuc 0) then 84 else digit_char x

pub encode_binary : List ℕ → List ℕ
unfolding to_ternary
encode_binary [] = []
encode_binary (c ∷ text) = map digit_char (to_ternary c) ++ 124 ∷ encode_binary text

abbrev pub chars_of : Option (List ℤ) → Option (List ℕ) → Option (List ℕ)
chars_of (some t) (some enc) = some (map balanced_char t ++ 124 ∷ enc)
chars_of _ _ = none

pub encode_balanced : List ℕ → Option (List ℕ)
unfolding to_balanced_ternary
encode_balanced [] = some []
encode_balanced (c ∷ text) = chars_of (to_balanced_ternary (pos c)) (encode_balanced text)

-- What stands in `cur` and in `out` while a code is read.
abbrev pub Reading : Type 0
Reading = Option (List ℤ × List ℕ)

abbrev pub push_byte : List ℕ → Option ℕ → Reading
push_byte out none = none
push_byte out (some b) = some ([], out ++ b ∷ [])

abbrev pub push_cur : List ℤ → Option ℤ → List ℤ
push_cur cur none = cur
push_cur cur (some d) = cur ++ d ∷ []

abbrev pub out_of : Reading → Option (List ℕ)
out_of none = none
out_of (some s) = some s.1

-- The loop that the two decoders share; they differ in the digits they know and in the numeral.
module _ (digit_of : ℕ → Option ℤ) (number : List ℤ → Option ℕ) where
  abbrev pub read : Reading → ℕ → Reading
  read none ch = none
  read (some (cur, out)) ch =
      if eqb ch 124 then push_byte out (number cur) else some (push_cur cur (digit_of ch), out)

  pub read_all : Reading → List ℕ → Reading
  read_all s [] = s
  read_all s (ch ∷ enc) = read_all (read s ch) enc

abbrev pub digit_of : ℕ → Option ℤ
digit_of ch = if leb 48 ch && leb ch 50 then some (pos (ch - 48)) else none

abbrev pub balanced_digit_of : ℕ → Option ℤ
balanced_digit_of ch = if eqb ch 84 then some (negsuc 0) else digit_of ch

-- `static_cast<char>`
abbrev pub to_byte : ℤ → ℕ
to_byte (pos n) = n % 256
to_byte (negsuc n) = 255 - n % 256

pub decode_ternary : List ℕ → Option (List ℕ)
unfolding read_all from_ternary
decode_ternary enc =
    out_of (read_all digit_of (λ cur. some (from_ternary cur % 256)) (some ([], [])) enc)

pub decode_balanced : List ℕ → Option (List ℕ)
unfolding read_all from_balanced_ternary
decode_balanced enc = out_of (
    read_all balanced_digit_of (λ cur. option_map to_byte (from_balanced_ternary cur))
      (some ([], [])) enc)
