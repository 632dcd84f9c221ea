-- ===== src/Prelude/Decimal.antt =====
-- `std::to_string` and `<<` of integers.
use Prim.Native.Nat.{ℕ, zero, suc, ◌/◌, ◌%◌}
use Prim.Native.String.{String, ◌++◌ as append}
use blackstone.Prelude.Tests.{eqb, ltb, if◌then◌else◌}
use blackstone.Prelude.Int.{ℤ, pos, negsuc}

abbrev pub digit : ℕ → String
digit n =
    if eqb n 0
    then "0"
    else if eqb n 1
    then "1"
    else if eqb n 2
    then "2"
    else if eqb n 3
    then "3"
    else if eqb n 4
    then "4"
    else if eqb n 5
    then "5"
    else if eqb n 6
    then "6"
    else if eqb n 7
    then "7"
    else if eqb n 8
    then "8"
    else "9"

-- A number below 10^fuel; those here have 64 bits, so 20 digits are enough.
abbrev pub decimal : ℕ → ℕ → String
decimal zero n = ""
decimal (suc fuel) n =
    let front = decimal fuel (n / 10) in if ltb n 10 then digit n else append front (digit (n % 10))

abbrev pub to_string : ℕ → String
to_string n = decimal 20 n

abbrev pub int_string : ℤ → String
int_string (pos n) = to_string n
int_string (negsuc n) = append "-" (to_string (suc n))
