-- ===== src/Printing/Tests.antt =====
-- Numbers, formats and lines, and the theorems there.
use sistemas_operativos.Base.{ℕ, ◌≡◌, refl, arith, List, [], ◌∷◌, some}
use sistemas_operativos.Printing.{put_number, print_ff, prints}
use sistemas_operativos.Printing.Formats.{
  Piece, letter, string, number, format_of, strings_of, numbers_of, rendered, print_ff-rendered,
}

-- The bit pattern of -120.
abbrev minus : ℕ
minus = 4294967176

put_number_run : put_number minus ≡ b'-' ∷ b'1' ∷ b'2' ∷ b'0' ∷ []
unfolding put_number
put_number_run = refl

-- "a%s%d"
abbrev pieces : List Piece
pieces = letter b'a' (λ e. omega (arith, e)) ∷ string (b'b' ∷ b'c' ∷ []) ∷ number 7 ∷ []

print_ff-rendered_example :
    print_ff 0 (format_of pieces) (some (strings_of pieces)) (some (numbers_of pieces))
    ≡ prints (rendered pieces)
print_ff-rendered_example = print_ff-rendered pieces 0 (λ e. omega (arith, e))

abbrev no_strings : List Piece
no_strings = letter b'a' (λ e. omega (arith, e)) ∷ number 7 ∷ []

abbrev typed : List ℕ
typed = b'l' ∷ b's' ∷ []
