-- ===== src/Ternary/Root.antt =====
-- p2p_banking_system/core/ternary.cpp: what the root of the ternary tree says of the text.
use mathlib.Core.Option.{map as option_map}
use blackstone.Prelude.{
  ℕ, zero, suc, ◌+◌, ◌*◌, ◌%◌, ◌^◌, ◌≤◌, ◌≡◌, refl, sym, ◌∙◌, ap, Option, none, some, false, ltb,
  List, [], ◌∷◌, ◌++◌, length, length-drop, take, drop, arith, map,
}
use blackstone.Prelude.Int.{ℤ, pos, negsuc, ◌+ℤ◌, pos_part, neg_part, +ℤ_parts}
use blackstone.Ternary.{rem3}
use blackstone.Ternary.Tree.{char_value, bottom_row, sum, parents, rows, build_ternary_tree}

-- The class of an integer modulo 3, from 0 to 2.
abbrev pub residue : ℤ → ℕ
residue a = (pos_part a + 2 * neg_part a) % 3

-- `tree[0][0]`
abbrev pub root : List (List ℤ) → Option ℤ
root [] = none
root ([] ∷ tree) = none
root ((x ∷ row) ∷ tree) = some x

residue-add : (a b : ℤ) → residue (a +ℤ b) ≡ (residue a + residue b) % 3
residue-add a b = let h = +ℤ_parts a b in omega (arith, h)

residue-rem3 : (a : ℤ) → residue (rem3 a) ≡ residue a
residue-rem3 (pos n) = ground arith
residue-rem3 (negsuc n) = ground arith

-- The leaves that have no byte.
residue-pad : (n : ℕ) → residue (sum (bottom_row n [])) ≡ 0
residue-pad zero = refl
residue-pad (suc n) = residue-add (pos 0) (sum (bottom_row n [])) ∙ rw (residue-pad n) refl

residue-bottom_row :
    (n : ℕ) (text : List ℕ)
    → residue (sum (bottom_row n text)) ≡ residue (sum (map char_value (take n text)))
residue-bottom_row zero text = refl
residue-bottom_row (suc n) [] = residue-pad (suc n)
residue-bottom_row (suc n) (c ∷ text) =
    residue-add (rem3 (char_value c)) (sum (bottom_row n text))
    ∙ rw (residue-rem3 (char_value c), residue-bottom_row n text) refl
    ∙ sym (residue-add (char_value c) (sum (map char_value (take n text))))

residue-split :
    (n : ℕ) (row : List ℤ)
    → residue (sum row) ≡ (residue (sum (take n row)) + residue (sum (drop n row))) % 3
residue-split zero row = omega arith
residue-split (suc n) [] = refl
residue-split (suc n) (x ∷ row) =
    omega (arith, residue-add x (sum row), residue-add x (sum (take n row)), residue-split n row)

residue-parents :
    (n : ℕ) (row : List ℤ) → length row ≤ n * 3 → residue (sum (parents n row)) ≡ residue (sum row)
residue-parents zero [] l = refl
residue-parents zero (x ∷ row) l = absurd (omega arith)
residue-parents (suc n) row l =
    let rest = residue-parents n (drop 3 row) (omega (arith, length-drop 3 row)) in
    residue-add (rem3 (sum (take 3 row))) (sum (parents n (drop 3 row)))
    ∙ rw (residue-rem3 (sum (take 3 row)), rest) (sym (residue-split 3 row))

length-parents : (n : ℕ) (row : List ℤ) → length (parents n row) ≡ n
length-parents zero row = refl
length-parents (suc n) row = ap suc (length-parents n (drop 3 row))

length-bottom_row : (n : ℕ) (text : List ℕ) → length (bottom_row n text) ≡ n
length-bottom_row zero text = refl
length-bottom_row (suc n) [] = ap suc (length-bottom_row n [])
length-bottom_row (suc n) (c ∷ text) = ap suc (length-bottom_row n text)

root-append :
    (tree below : List (List ℤ)) (k : ℕ)
    → option_map residue (root tree) ≡ some k
    → option_map residue (root (tree ++ below)) ≡ some k
root-append [] below k h = cc
root-append ([] ∷ tree) below k h = cc
root-append ((x ∷ row) ∷ tree) below k h = h

root-rows :
    (d : ℕ) (row : List ℤ)
    → length row ≡ 3 ^ d
    → option_map residue (root (rows d row)) ≡ some (residue (sum row))
root-rows zero [] l = absurd (omega arith)
root-rows zero (x ∷ []) l = ap some (omega (arith, residue-add x (pos 0)))
root-rows zero (x ∷ y ∷ row) l = absurd (omega arith)
root-rows (suc d) row l =
    root-append (rows d (parents (3 ^ d) row)) (row ∷ []) (residue (sum row)) (
      root-rows d (parents (3 ^ d) row) (length-parents (3 ^ d) row)
      ∙ ap some (residue-parents (3 ^ d) row (omega arith)))

-- Of a tree that was built.
abbrev pub root_of : Option (List (List ℤ)) → Option ℕ
root_of none = none
root_of (some tree) = option_map residue (root tree)

-- Up to depth 18, the root of the tree of a text is congruent modulo 3 to the sum of the bytes, as
-- signed chars, that the bottom row has room for.
pub root-build_ternary_tree :
    (text : List ℕ) (depth : ℕ)
    → depth ≤ 18
    → root_of (build_ternary_tree text depth)
      ≡ some (residue (sum (map char_value (take (3 ^ depth) text))))
unfolding build_ternary_tree
root-build_ternary_tree text depth small =
    let defined : ltb 18 depth ≡ false = ground arith in
    rw defined (
      root-rows depth (bottom_row (3 ^ depth) text) (length-bottom_row (3 ^ depth) text)
      ∙ ap some (residue-bottom_row (3 ^ depth) text))
