-- ===== src/Prelude/Words.antt =====
-- `uint64_t` and a 64-bit `size_t`.
use Prim.Native.Nat.{ℕ, ◌+◌, ◌-◌, ◌%◌, ◌^◌, ◌<◌}
use mathlib.Core.Path.{◌≡◌}
use mathlib.Core.Bool.{Bool}
use native.Mathlib.Omega.{arith}
use blackstone.Prelude.Tests.{ltb, if◌then◌else◌}

abbrev pub word : ℕ
word = 2 ^ 64

abbrev pub add64 : ℕ → ℕ → ℕ
add64 a b = (a + b) % word

abbrev pub sub64 : ℕ → ℕ → ℕ
sub64 a b = (a + word - b) % word

abbrev pub inc64 : ℕ → ℕ
inc64 n = add64 n 1

abbrev pub dec64 : ℕ → ℕ
dec64 n = sub64 n 1

-- Has more than `limit` passed from `since` to `now`, where the difference wraps? If the clock has
-- gone back by d, then 2^64 - d is taken to have passed.
abbrev pub elapsed_over : ℕ → ℕ → ℕ → Bool
elapsed_over limit since now =
    if ltb now since then ltb (limit + since) (now + word) else ltb (since + limit) now

pub elapsed_over_lem :
    (limit since now : ℕ)
    → since < word
    → now < word
    → ltb limit (sub64 now since) ≡ elapsed_over limit since now
elapsed_over_lem limit since now h k = ground arith
