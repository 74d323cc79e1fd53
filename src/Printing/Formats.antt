-- ===== src/Printing/Formats.antt =====
-- Kernel/stdio.c, `printFF`: what a format prints.
use sistemas_operativos.Base.{
  ℕ, ◌≡◌, ◌≢◌, refl, List, [], ◌∷◌, ◌++◌, ==_ne, arith, false, none, some,
}
use sistemas_operativos.Printing.{percent, print_loop, print_ff, put_number, prints, hangs}

-- What a format is made of: a character other than the percent sign, "%s", or "%d".
pub data Piece : Type 0 where
  letter : (c : ℕ) → c ≢ percent → Piece
  string : List ℕ → Piece
  number : ℕ → Piece

abbrev pub format_of : List Piece → List ℕ
format_of [] = []
format_of (letter c ne ∷ pieces) = c ∷ format_of pieces
format_of (string x ∷ pieces) = percent ∷ b's' ∷ format_of pieces
format_of (number x ∷ pieces) = percent ∷ b'd' ∷ format_of pieces

abbrev pub strings_of : List Piece → List (List ℕ)
strings_of [] = []
strings_of (letter c ne ∷ pieces) = strings_of pieces
strings_of (string x ∷ pieces) = x ∷ strings_of pieces
strings_of (number x ∷ pieces) = strings_of pieces

abbrev pub numbers_of : List Piece → List ℕ
numbers_of [] = []
numbers_of (letter c ne ∷ pieces) = numbers_of pieces
numbers_of (string x ∷ pieces) = numbers_of pieces
numbers_of (number x ∷ pieces) = x ∷ numbers_of pieces

abbrev pub rendered : List Piece → List ℕ
rendered [] = []
rendered (letter c ne ∷ pieces) = c ∷ rendered pieces
rendered (string x ∷ pieces) = x ++ rendered pieces
rendered (number x ∷ pieces) = put_number x ++ rendered pieces

print_loop-format_of :
    (pieces : List Piece) (before : ℕ)
    → before ≢ percent
    → print_loop false before
        (format_of pieces)
        (some (strings_of pieces))
        (some (numbers_of pieces))
      ≡ prints (rendered pieces)
unfolding print_loop
print_loop-format_of [] before ne = rw (==_ne before percent ne)
print_loop-format_of (letter c plain ∷ pieces) before ne =
    rw (==_ne c percent plain, print_loop-format_of pieces c plain)
print_loop-format_of (string x ∷ pieces) before ne =
    rw (print_loop-format_of pieces b's' (λ e. absurd (omega (arith, e))))
print_loop-format_of (number x ∷ pieces) before ne =
    rw (print_loop-format_of pieces b'd' (λ e. absurd (omega (arith, e))))

-- `printFF` prints the letters of its format as they are, and in place of each "%s" and "%d" the
-- next text and the next number of its arguments. Behind a percent sign the format has only `s` and
-- `d`, there are as many arguments as these, and what lies before the format in memory is no
-- percent sign.
pub print_ff-rendered :
    (pieces : List Piece) (before : ℕ)
    → before ≢ percent
    → print_ff before (format_of pieces) (some (strings_of pieces)) (some (numbers_of pieces))
      ≡ prints (rendered pieces)
unfolding print_ff
print_ff-rendered pieces before ne = print_loop-format_of pieces before ne

print_loop-hangs :
    (letters : List Piece) (before : ℕ) (rest numbers : List ℕ)
    → strings_of letters ≡ []
    → print_loop false before
        (format_of letters ++ percent ∷ b's' ∷ rest)
        none
        (some (numbers_of letters ++ numbers))
      ≡ hangs
unfolding print_loop
print_loop-hangs [] before rest numbers no_strings = refl
print_loop-hangs (letter c plain ∷ letters) before rest numbers no_strings =
    rw (==_ne c percent plain, print_loop-hangs letters c rest numbers no_strings)
print_loop-hangs (string x ∷ letters) before rest numbers no_strings = absurd (cc no_strings)
print_loop-hangs (number x ∷ letters) before rest numbers no_strings =
    rw (print_loop-hangs letters b'd' rest numbers no_strings)

-- With NULL for the texts, `printFF` loops for ever at the first "%s" of its format, if what is in
-- front of it is letters and "%d" with a number for each.
print_ff_null :
    (letters : List Piece) (before : ℕ) (rest numbers : List ℕ)
    → strings_of letters ≡ []
    → print_ff before
        (format_of letters ++ percent ∷ b's' ∷ rest)
        none
        (some (numbers_of letters ++ numbers))
      ≡ hangs
unfolding print_ff
print_ff_null letters before rest numbers no_strings =
    print_loop-hangs letters before rest numbers no_strings
