-- ===== src/Utils/Swap.antt =====
-- bank_crypto_project/src/utils/bank_utils.cpp: the order of bytes.
use blackstone.Prelude.{ℕ, ◌^◌, ◌<◌, ◌≡◌, arith}
use blackstone.Utils.{bswap16, bswap32, bswap64}

-- Swapping the bytes of a word of 16, 32 or 64 bits twice gives the word.
pub bswap_twice :
    (x y z : ℕ)
    → x < 2 ^ 16
    → y < 2 ^ 32
    → z < 2 ^ 64
    → (bswap16 (bswap16 x) ≡ x) × (bswap32 (bswap32 y) ≡ y) × (bswap64 (bswap64 z) ≡ z)
unfolding bswap16 bswap32 bswap64
bswap_twice x y z h k l = (omega arith, omega arith, omega arith)
