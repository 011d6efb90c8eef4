-- ===== src/Common/Decimal.antt =====
-- `%d` of a number that fits in its type, and of a uint32_t that is passed for an int.
use Prim.Native.Nat.{ℕ, zero, suc, ◌+◌, ◌-◌, ◌/◌, ◌%◌, ◌^◌}
use mathlib.Core.List.{List, [], ◌∷◌, ◌++◌}
use atx_sys.Common.Tests.{ltb, if◌then◌else◌}

-- Ten digits are enough for 32 bits.
unfoldable pub digits_fuel : ℕ → ℕ → List ℕ
digits_fuel zero n = []
digits_fuel (suc f) n =
    let rest = digits_fuel f (n / 10) in
    if ltb n 10 then (b'0' + n) ∷ [] else rest ++ (b'0' + n % 10) ∷ []

unfoldable pub decimal : ℕ → List ℕ
unfolding digits_fuel
decimal n = digits_fuel 10 n

-- The int of the same 32 bits.
unfoldable pub decimal_as_int : ℕ → List ℕ
unfolding decimal
decimal_as_int n = if ltb n (2 ^ 31) then decimal n else b'-' ∷ decimal (2 ^ 32 - n)
