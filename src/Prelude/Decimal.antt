-- ===== src/Prelude/Decimal.antt =====
-- Numbers in decimal, as `format!` prints them.
use Prim.Native.Nat.{ℕ, zero, suc, ◌+◌, ◌/◌, ◌%◌}
use Prim.Native.String.{String, ◌++◌, slice}
use mathlib.Core.Path.{◌≡◌, refl}
use mathlib.Core.Bool.{true, false}
use codaze.Prelude.Tests.{ltb}

abbrev pub digit : ℕ → String
digit d = slice "0123456789" d (d + 1)

-- With fuel for as many digits as there are; a number has fewer digits than its value and one.
unfoldable pub show_fuel : ℕ → ℕ → String
show_fuel zero n = ""
show_fuel (suc fuel) n = elim (ltb n 10) [
  | true ↦ digit n
  | false ↦ show_fuel fuel (n / 10) ++ digit (n % 10)
]

unfoldable pub show : ℕ → String
unfolding show_fuel
show n = show_fuel (suc n) n

show_runs : show 18446744073709551615 ≡ "18446744073709551615"
unfolding show
show_runs = refl
