-- ===== src/Ternary/Tree.antt =====
-- p2p_banking_system/core/ternary.cpp: the ternary tree, for a depth that is not negative. From depth
-- 19 on a power of 3 that is cast to int leaves its range, which is undefined and is `none` here. The
-- elements of a `std::string` are signed chars.
use blackstone.Prelude.{
  ℕ, zero, suc, ◌-◌, ◌^◌, ◌≡◌, refl, ◌∙◌, ap, Bool, true, false, not, Option, none, some, List, [],
  ◌∷◌, ◌++◌, length, length-append, take, drop, ltb, if◌then◌else◌, if_both, arith,
}
use blackstone.Prelude.Int.{ℤ, pos, negsuc, ◌+ℤ◌, eqb_ℤ}
use blackstone.Ternary.{rem3}

abbrev pub char_value : ℕ → ℤ
char_value c = if ltb c 128 then pos c else negsuc (255 - c)

-- The bottom row, of n entries.
abbrev pub bottom_row : ℕ → List ℕ → List ℤ
bottom_row zero text = []
bottom_row (suc n) [] = pos 0 ∷ bottom_row n []
bottom_row (suc n) (c ∷ text) = rem3 (char_value c) ∷ bottom_row n text

abbrev pub sum : List ℤ → ℤ
sum [] = pos 0
sum (x ∷ xs) = x +ℤ sum xs

-- A row of n entries from the row under it.
abbrev pub parents : ℕ → List ℤ → List ℤ
parents zero row = []
parents (suc n) row = rem3 (sum (take 3 row)) ∷ parents n (drop 3 row)

-- The rows from the top to the one at depth d.
abbrev pub rows : ℕ → List ℤ → List (List ℤ)
rows zero row = row ∷ []
rows (suc d) row = rows d (parents (3 ^ d) row) ++ row ∷ []

unfoldable pub build_ternary_tree : List ℕ → ℕ → Option (List (List ℤ))
build_ternary_tree text depth =
    let tree = rows depth (bottom_row (3 ^ depth) text) in if ltb 18 depth then none else some tree

abbrev matches : List ℤ → List ℕ → Bool
matches row [] = true
matches [] (c ∷ text) = true
matches (x ∷ row) (c ∷ text) =
    let rest = matches row text in if not (eqb_ℤ x (rem3 (char_value c))) then false else rest

-- `tree[depth]`, with nothing where the tree has no row: the source reads outside it there.
abbrev last_row : List (List ℤ) → Option (List ℤ)
last_row [] = none
last_row (row ∷ []) = some row
last_row (row ∷ next ∷ tree) = last_row (next ∷ tree)

abbrev match_row : Option (List ℤ) → List ℕ → Option Bool
match_row none text = none
match_row (some row) text = some (matches row text)

unfoldable pub verify_ternary_tree : List (List ℤ) → List ℕ → Option Bool
verify_ternary_tree tree text = match_row (last_row tree) text

eqb_ℤ-same : (x : ℤ) → eqb_ℤ x x ≡ true
eqb_ℤ-same x = ground arith

matches-bottom_row : (n : ℕ) (text : List ℕ) → matches (bottom_row n text) text ≡ true
matches-bottom_row zero [] = refl
matches-bottom_row zero (c ∷ text) = refl
matches-bottom_row (suc n) [] = refl
matches-bottom_row (suc n) (c ∷ text) =
    rw (eqb_ℤ-same (rem3 (char_value c)), matches-bottom_row n text) refl

last_row-append : (tree : List (List ℤ)) (row : List ℤ) → last_row (tree ++ row ∷ []) ≡ some row
last_row-append [] row = refl
last_row-append (r ∷ []) row = refl
last_row-append (r ∷ s ∷ tree) row = last_row-append (s ∷ tree) row

last_row-rows : (d : ℕ) (row : List ℤ) → last_row (rows d row) ≡ some row
last_row-rows zero row = refl
last_row-rows (suc d) row = last_row-append (rows d (parents (3 ^ d) row)) row

length-rows : (d : ℕ) (row : List ℤ) → length (rows d row) ≡ suc d
length-rows zero row = refl
length-rows (suc d) row =
    length-append (rows d (parents (3 ^ d) row)) (row ∷ [])
    ∙ ground (arith, length-rows d (parents (3 ^ d) row))

abbrev IsTreeOf : List ℕ → ℕ → Option (List (List ℤ)) → Type 0
IsTreeOf text depth none = Unit
IsTreeOf text depth (some tree) =
    (length tree ≡ suc depth) × (verify_ternary_tree tree text ≡ some true)

-- The tree of a text, where it is defined, has a row for each depth, and the text verifies against it.
verify_ternary_tree-build :
    (text : List ℕ) (depth : ℕ) → IsTreeOf text depth (build_ternary_tree text depth)
unfolding build_ternary_tree verify_ternary_tree
verify_ternary_tree-build text depth = if_both (IsTreeOf text depth) (ltb 18 depth) tt (
  length-rows depth (bottom_row (3 ^ depth) text),
  ap (λ r. match_row r text) (last_row-rows depth (bottom_row (3 ^ depth) text))
      ∙ ap some (matches-bottom_row (3 ^ depth) text),
)

-- Only the bottom row is read: whatever rows replace the others, the text still verifies.
verify_ternary_tree-upper :
    (text : List ℕ) (depth : ℕ) (upper : List (List ℤ))
    → verify_ternary_tree (upper ++ bottom_row (3 ^ depth) text ∷ []) text ≡ some true
unfolding verify_ternary_tree
verify_ternary_tree-upper text depth upper =
    ap (λ r. match_row r text) (last_row-append upper (bottom_row (3 ^ depth) text))
    ∙ ap some (matches-bottom_row (3 ^ depth) text)
