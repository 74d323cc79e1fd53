-- ===== src/Console/Tests.antt =====
-- Numbers in three bases, and the theorems there.
use sistemas_operativos.Base.{ℕ, ◌≡◌, refl, [], ◌∷◌, some}
use sistemas_operativos.Console.{uint_to_base, nc_print_base}

abbrev zeros : ℕ → ℕ
zeros i = 0

hexadecimal : nc_print_base 0x2F0 zeros 16 ≡ some (b'2' ∷ b'F' ∷ b'0' ∷ [])
unfolding nc_print_base uint_to_base
hexadecimal = refl
