-- ===== src/Ternary/Tests.antt =====
-- Concrete numerals and codes.
use blackstone.Prelude.{ℕ, ◌≡◌, refl, some, List, [], ◌∷◌, false, map, take, arith}
use blackstone.Prelude.Int.{ℤ, pos, negsuc, ◌+ℤ◌}
use blackstone.Ternary.{
  to_ternary, from_ternary, to_balanced_ternary, encode_binary, decode_ternary, encode_balanced,
}
use blackstone.Ternary.Numerals.{from_ternary-to_ternary, from-to_balanced_ternary, read_back}
use blackstone.Ternary.Tree.{char_value, sum, build_ternary_tree, verify_ternary_tree}
use blackstone.Ternary.Root.{residue, root_of, root-build_ternary_tree}
use blackstone.Ternary.Codes.{
  decode_ternary-encode_binary, decode_balanced-encode_balanced, decode_made,
}

thousand : from_ternary (to_ternary 1000) ≡ 1000
thousand = from_ternary-to_ternary 1000 (omega arith)

from-to_balanced_ternary_example : read_back (to_balanced_ternary (negsuc 6)) ≡ some (negsuc 6)
from-to_balanced_ternary_example = from-to_balanced_ternary (negsuc 6) (omega arith) (omega arith)

abbrev text : List ℕ
text = 0 ∷ 5 ∷ 72 ∷ 255 ∷ []

balanced_five : encode_balanced (5 ∷ []) ≡ some (49 ∷ 84 ∷ 84 ∷ 124 ∷ [])
unfolding encode_balanced ◌+ℤ◌
balanced_five = refl

decode_ternary-encode_binary_at : decode_ternary (encode_binary text) ≡ some text
decode_ternary-encode_binary_at = decode_ternary-encode_binary text (omega arith)

decode_balanced-encode_balanced_at : decode_made (encode_balanced text) ≡ some text
decode_balanced-encode_balanced_at = decode_balanced-encode_balanced text (omega arith)

-- 0 + 5 + 72 - 1 is 1 modulo 3.
root-build_ternary_tree_example :
    root_of (build_ternary_tree text 2) ≡ some (residue (sum (map char_value (take 9 text))))
root-build_ternary_tree_example = root-build_ternary_tree text 2 (omega arith)

-- A leaf of a byte from 128 may be negative: % keeps the sign.
abbrev tree_of_text : List (List ℤ)
tree_of_text =
    (pos 1 ∷ [])
    ∷ (pos 2 ∷ negsuc 0 ∷ pos 0 ∷ [])
    ∷ (pos 0 ∷ pos 2 ∷ pos 0 ∷ negsuc 0 ∷ pos 0 ∷ pos 0 ∷ pos 0 ∷ pos 0 ∷ pos 0 ∷ [])
    ∷ []

tree_built : build_ternary_tree text 2 ≡ some tree_of_text
unfolding build_ternary_tree ◌+ℤ◌
tree_built = refl

other_text : verify_ternary_tree tree_of_text (0 ∷ 4 ∷ []) ≡ some false
unfolding verify_ternary_tree
other_text = refl
