-- ===== src/Base/Int32.antt =====
-- A C `int` as its bit pattern, a number below 2 ^ 32.
use Prim.Native.Nat.{ℕ, ◌+◌, ◌-◌, ◌%◌, ◌^◌}
use mathlib.Core.Bool.{Bool}
use sistemas_operativos.Base.Tests.{ltb}

-- The pattern of the integer -n, for 0 < n ≤ 2 ^ 31.
abbrev pub neg : ℕ → ℕ
neg n = 2 ^ 32 - n

abbrev pub add32 : ℕ → ℕ → ℕ
add32 a b = (a + b) % 2 ^ 32

abbrev pub sub32 : ℕ → ℕ → ℕ
sub32 a b = (a + 2 ^ 32 - b) % 2 ^ 32

-- The integer is not negative.
abbrev pub non_negative : ℕ → Bool
non_negative a = ltb a (2 ^ 31)
