-- ===== src/Prelude/Bytes.antt =====
-- Bytes, as natural numbers below 256, and words written as bytes.
use Prim.Native.Nat.{ℕ, zero, suc, ◌/◌, ◌%◌, ◌≤◌, ◌<◌, min, bit_xor, bit_xor-bitwise}
use mathlib.Core.Path.{◌≡◌, refl, ap}
use mathlib.Core.Bool.{Bool, true, false}
use mathlib.Core.List.{List, [], ◌∷◌}
use native.Mathlib.Omega.{arith}
use blackstone.Prelude.Tests.{eqb, eqb_iff, if◌then◌else◌}
use blackstone.Prelude.Lists.{length, take, replicate, All}

-- A test on every number under a limit, and on every pair of bytes.
abbrev pub passes : (ℕ → Bool) → ℕ → Bool
passes test zero = true
passes test (suc limit) = if test limit then passes test limit else false

passes-at : (test : ℕ → Bool) (limit i : ℕ) → i < limit → passes test limit ≡ true → test i ≡ true
passes-at test zero i lt h = absurd (omega arith)
passes-at test (suc limit) i lt h = ground (arith, passes-at test limit i, ap test)

abbrev pub pair_passes : (ℕ → ℕ → Bool) → Bool
pair_passes test = passes (λ x. passes (test x) 256) 256

pub pair_passes-at :
    (test : ℕ → ℕ → Bool) {x k : ℕ} → x < 256 → k < 256 → pair_passes test ≡ true → test x k ≡ true
pair_passes-at test {x} {k} hx hk h =
    passes-at (test x) 256 k hk (passes-at (λ y. passes (test y) 256) 256 x hx h)

-- A byte that is masked twice with the same byte is the byte.
pub xor_twice : (x k : ℕ) → x < 256 → k < 256 → bit_xor (bit_xor x k) k ≡ x
xor_twice x k hx hk =
    (eqb_iff _ _).0 (pair_passes-at (λ y m. eqb (bit_xor (bit_xor y m) m) y) hx hk refl)

-- Byte by byte, as far as both lists go.
abbrev pub xor_bytes : List ℕ → List ℕ → List ℕ
xor_bytes [] ks = []
xor_bytes (x ∷ xs) [] = []
xor_bytes (x ∷ xs) (k ∷ ks) = bit_xor x k ∷ xor_bytes xs ks

abbrev pub IsByte : ℕ → Type 0
IsByte b = b < 256

pub length-xor_bytes : (xs ks : List ℕ) → length (xor_bytes xs ks) ≡ min (length xs) (length ks)
length-xor_bytes [] ks = omega arith
length-xor_bytes (x ∷ xs) [] = omega arith
length-xor_bytes (x ∷ xs) (k ∷ ks) = omega (arith, length-xor_bytes xs ks)

pub xor_bytes_twice :
    (xs ks : List ℕ)
    → All IsByte xs
    → All IsByte ks
    → length xs ≤ length ks
    → xor_bytes (xor_bytes xs ks) ks ≡ xs
xor_bytes_twice [] ks h k l = refl
xor_bytes_twice (x ∷ xs) [] h k l = absurd (omega arith)
xor_bytes_twice (x ∷ xs) (y ∷ ks) h k l =
    grind (arith, xor_twice x y h.0 k.0, xor_bytes_twice xs ks h.1 k.1 (omega arith))

pub xor_back : (x k : ℕ) → x < 256 → k < 256 → bit_xor x (bit_xor x k) ≡ k
xor_back x k hx hk =
    (eqb_iff _ _).0 (pair_passes-at (λ y m. eqb (bit_xor y (bit_xor y m)) m) hx hk refl)

-- From a text and its masked form, the mask.
pub xor_bytes_back :
    (xs ks : List ℕ)
    → All IsByte xs
    → All IsByte ks
    → xor_bytes xs (xor_bytes xs ks) ≡ take (length xs) ks
xor_bytes_back [] ks h k = refl
xor_bytes_back (x ∷ xs) [] h k = refl
xor_bytes_back (x ∷ xs) (y ∷ ks) h k =
    grind (arith, xor_back x y h.0 k.0, xor_bytes_back xs ks h.1 k.1)

pub xor_bytes-replicate : (n : ℕ) (ks : List ℕ) → xor_bytes (replicate n 0) ks ≡ take n ks
xor_bytes-replicate zero ks = refl
xor_bytes-replicate (suc n) [] = refl
xor_bytes-replicate (suc n) (k ∷ ks) = grind (arith, bit_xor-bitwise 0 k, xor_bytes-replicate n ks)

pub take-xor_bytes :
    (n : ℕ) (xs ks : List ℕ) → take n (xor_bytes xs ks) ≡ xor_bytes (take n xs) (take n ks)
take-xor_bytes zero xs ks = refl
take-xor_bytes (suc n) [] ks = refl
take-xor_bytes (suc n) (x ∷ xs) [] = refl
take-xor_bytes (suc n) (x ∷ xs) (k ∷ ks) = ap (λ t. bit_xor x k ∷ t) (take-xor_bytes n xs ks)

-- The `n` lowest bytes of a word, the lowest one first, and the highest one first.
abbrev pub little_endian : ℕ → ℕ → List ℕ
little_endian zero w = []
little_endian (suc n) w = w % 256 ∷ little_endian n (w / 256)

pub length-little_endian : (n w : ℕ) → length (little_endian n w) ≡ n
length-little_endian zero w = refl
length-little_endian (suc n) w = ap suc (length-little_endian n (w / 256))

pub little_endian-IsByte : (n w : ℕ) → All IsByte (little_endian n w)
little_endian-IsByte zero w = tt
little_endian-IsByte (suc n) w = (omega arith, little_endian-IsByte n (w / 256))

-- The i-th byte, 0 past the end.
abbrev pub byte_at : List ℕ → ℕ → ℕ
byte_at [] i = 0
byte_at (b ∷ bs) zero = b
byte_at (b ∷ bs) (suc i) = byte_at bs i
