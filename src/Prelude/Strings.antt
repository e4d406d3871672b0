-- ===== src/Prelude/Strings.antt =====
-- Template strings: their parts in sequence, and a number as JavaScript prints it.
use Prim.Native.Nat.{ℕ, zero, suc, ◌/◌, ◌%◌}
use Prim.Native.String.{String, ◌++◌, slice}
use mathlib.Core.Bool.{true, false}
use mathlib.Core.List.{List, [], ◌∷◌}
use gachinol.Prelude.Tests.{ltb}

abbrev pub template : List String → String
template [] = ""
template (s ∷ rest) = s ++ template rest

abbrev digit : ℕ → String
digit n = slice "0123456789" n (suc n)

-- The fuel is a bound on the number of digits.
abbrev decimal_within : ℕ → ℕ → String
decimal_within zero n = ""
decimal_within (suc fuel) n = elim (ltb n 10) [
  | true ↦ digit n
  | false ↦ decimal_within fuel (n / 10) ++ digit (n % 10)
]

unfoldable pub decimal : ℕ → String
decimal n = decimal_within (suc n) n
