-- ===== src/Utils.antt =====
-- bank_crypto_project/src/utils/bank_utils.cpp. Arrays are lists of bytes; two that are passed with one
-- length are as long as each other. A shift and a mask pick out bytes, which are joined by `+`.
pub mod Compare
pub mod Swap
mod Tests
use Prim.Native.Nat.{bit_or, bit_xor}
use blackstone.Prelude.{
  ℕ, zero, suc, ◌+◌, ◌*◌, ◌/◌, ◌%◌, ◌^◌, Bool, List, [], ◌∷◌, eqb, length, replicate,
}
use blackstone.Prelude.Bytes.{xor_bytes}

abbrev pub secure_zero : List ℕ → List ℕ
secure_zero bytes = replicate (length bytes) 0

-- The loop of `bank_secure_compare`.
abbrev pub differences : ℕ → List ℕ → List ℕ → ℕ
differences result [] bs = result
differences result (a ∷ xs) [] = result
differences result (a ∷ xs) (b ∷ bs) = differences (bit_or result (bit_xor a b)) xs bs

pub secure_compare : List ℕ → List ℕ → Bool
secure_compare xs bs = eqb (differences 0 xs bs) 0

abbrev pub memxor : List ℕ → List ℕ → List ℕ
memxor dst src = xor_bytes dst src

abbrev pub any_bit : ℕ → List ℕ → ℕ
any_bit result [] = result
any_bit result (b ∷ bs) = any_bit (bit_or result b) bs

pub is_zero : List ℕ → Bool
is_zero bytes = eqb (any_bit 0 bytes) 0

pub bswap16 : ℕ → ℕ
bswap16 x = x / 2 ^ 8 + x * 2 ^ 8 % 2 ^ 16

abbrev pub byte_of : ℕ → ℕ → ℕ
byte_of x place = x / 2 ^ place % 256

pub bswap32 : ℕ → ℕ
bswap32 x = x / 2 ^ 24 + byte_of x 16 * 2 ^ 8 + byte_of x 8 * 2 ^ 16 + x % 256 * 2 ^ 24

pub bswap64 : ℕ → ℕ
bswap64 x =
    x / 2 ^ 56
    + byte_of x 48 * 2 ^ 8
    + byte_of x 40 * 2 ^ 16
    + byte_of x 32 * 2 ^ 24
    + byte_of x 24 * 2 ^ 32
    + byte_of x 16 * 2 ^ 40
    + byte_of x 8 * 2 ^ 48
    + x % 256 * 2 ^ 56
