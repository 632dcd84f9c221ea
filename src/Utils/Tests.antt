-- ===== src/Utils/Tests.antt =====
-- Runs of bank_crypto_project/src/utils/bank_utils.cpp.
use blackstone.Prelude.{ℕ, ◌≡◌, ◌↔◌, refl, true, List, [], ◌∷◌, arith}
use blackstone.Utils.{secure_compare, is_zero, secure_zero, memxor, bswap16, bswap32, bswap64}
use blackstone.Utils.Compare.{equal_bytes, secure_compare_iff}
use blackstone.Utils.Swap.{bswap_twice}

abbrev tag : List ℕ
tag = 1 ∷ 2 ∷ 255 ∷ []

abbrev other : List ℕ
other = 1 ∷ 2 ∷ 254 ∷ []

secure_compare_iff_example :
    (secure_compare tag other ≡ equal_bytes tag other)
    × ((secure_compare tag other ≡ true) ↔ (tag ≡ other))
secure_compare_iff_example = secure_compare_iff tag other (search arith) (search arith) refl

cleared : is_zero (secure_zero (memxor tag other)) ≡ true
unfolding is_zero
cleared = refl

swapped : bswap32 0x11223344 ≡ 0x44332211
unfolding bswap32
swapped = refl

bswap_twice_at :
    (bswap16 (bswap16 258) ≡ 258) × (bswap32 (bswap32 7) ≡ 7) × (bswap64 (bswap64 9) ≡ 9)
bswap_twice_at = bswap_twice 258 7 9 (omega arith) (omega arith) (omega arith)
