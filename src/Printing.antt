-- ===== src/Printing.antt =====
-- Kernel/stdio.c: `putNumber`, `printFF` and `scanFF`. What `putchar` is handed and what `getchar`
-- gives are lists of characters; an `int` is its bit pattern and a `char` its byte.
pub mod Numbers
pub mod Formats
pub mod Lines
pub mod Tests
use sistemas_operativos.Base.{
  ℕ, zero, suc, ◌+◌, ◌-◌, ◌/◌, ◌%◌, ◌^◌, List, [], ◌∷◌, ◌++◌, length, Bool, true, false,
  if◌then◌else◌, ◌==◌, add32, non_negative, Option, none, some,
}
use mathlib.Core.List.{reverse}

abbrev pub buffersize : ℕ
buffersize = 100

abbrev pub percent : ℕ
percent = b'%'

abbrev pub newline : ℕ
newline = 10

abbrev pub backspace : ℕ
backspace = 8

abbrev pub negate : ℕ → ℕ
negate n = (2 ^ 32 - n) % 2 ^ 32

-- `/ 10` and `% 10` on an `int` go towards 0.
abbrev pub div_ten : ℕ → ℕ
div_ten n = if non_negative n then n / 10 else negate (negate n / 10)

abbrev pub mod_ten : ℕ → ℕ
mod_ten n = if non_negative n then n % 10 else negate (negate n % 10)

abbrev pub digit : ℕ → ℕ
digit n = add32 n b'0' % 2 ^ 8

-- The loops of `putNumber`: the digits are put on a stack and printed from its top. An `int` has ten
-- digits at most, so ten rounds are enough.
pub number_loop : ℕ → ℕ → List ℕ → List ℕ
number_loop zero n buffer = buffer
number_loop (suc fuel) n buffer =
    let rest = number_loop fuel (div_ten n) (digit (mod_ten n) ∷ buffer) in
    if div_ten n == 0 then digit n ∷ buffer else rest

unfoldable pub put_number : ℕ → List ℕ
unfolding number_loop
put_number n = if non_negative n then number_loop 10 n [] else b'-' ∷ number_loop 10 (negate n) []

-- `print` and the inner loop of `printFF` hand on every character.
abbrev pub print : List ℕ → List ℕ
print s = s

-- What becomes of a call of `printFF`: a text, a loop without end, or a read behind the arguments.
pub data Printed : Type 0 where
  prints : List ℕ → Printed
  hangs reads_beyond : Printed

abbrev pub emit : List ℕ → Printed → Printed
emit xs (prints ys) = prints (xs ++ ys)
emit xs hangs = hangs
emit xs reads_beyond = reads_beyond

-- In the state LETTER for `false` and FORMAT for `true`; `before` is the character before the rest of
-- the format. NULL arguments are `none`.
pub print_loop : Bool → ℕ → List ℕ → Option (List (List ℕ)) → Option (List ℕ) → Printed
unfolding put_number
print_loop state before [] s n = if before == percent then prints (percent ∷ []) else prints []
print_loop false before (c ∷ format) s n =
    let conversion = print_loop true c format s n in
    let letter = emit (c ∷ []) (print_loop false c format s n) in
    if c == percent then conversion else letter
print_loop true before (c ∷ format) s n =
    let unknown = emit (percent ∷ []) (print_loop true c format s n) in
    let number : Printed = elim n [
      | none ↦ unknown
      | some [] ↦ reads_beyond
      | some (x ∷ xs) ↦ emit (put_number x) (print_loop false c format s (some xs))
    ] in
    let string : Printed = elim s [
      | none ↦ hangs
      | some [] ↦ reads_beyond
      | some (x ∷ xs) ↦ emit (print x) (print_loop false c format (some xs) n)
    ] in
    if c == b'd' then number else if c == b's' then string else unknown

-- `before` is what lies in memory before the format.
unfoldable pub print_ff : ℕ → List ℕ → Option (List (List ℕ)) → Option (List ℕ) → Printed
unfolding print_loop
print_ff before format s n = print_loop false before format s n

-- The loop of `scanFF` that reads a text, with what is stored so far, last character first: the
-- text, and the input that is left; `none` while it waits for more input.
pub line_loop : List ℕ → List ℕ → Option (List ℕ × List ℕ)
line_loop [] string = none
line_loop (c ∷ input) string =
    let shorter : List ℕ = elim string [ [] ↦ [] | x ∷ xs ↦ xs ] in
    let stored : List ℕ = if c == backspace then shorter else c ∷ string in
    let rest = line_loop input stored in
    if c == newline
    then some (reverse string, input)
    else if c == backspace
    then rest
    else if length string == buffersize
    then some (reverse string, input)
    else rest

-- The loop of `scanFF` over a letter of the format: it takes the characters equal to it and one more.
pub letter_loop : ℕ → List ℕ → Option (List ℕ)
letter_loop letter [] = none
letter_loop letter (c ∷ input) =
    let rest = letter_loop letter input in if c == letter then rest else some input

-- What becomes of a call of `scanFF`: the texts, whether the last one filled the buffer, what it
-- printed, and the input left.
pub data Scanned : Type 0 where
  scanned : List (List ℕ) → Bool → List ℕ → List ℕ → Scanned
  waits hangs reads_beyond : Scanned

abbrev pub stored_text : List ℕ → Scanned → Scanned
stored_text x (scanned xs full out input) = scanned (x ∷ xs) full out input
stored_text x other = other

abbrev pub printed_number : List ℕ → Scanned → Scanned
printed_number x (scanned xs full out input) = scanned xs full (x ++ out) input
printed_number x other = other

-- `full` is `bufferindex == BUFFERSIZE`; `s` says whether there are places for texts.
pub scan_loop : Bool → List ℕ → Bool → Option (List ℕ) → Bool → List ℕ → Scanned
unfolding put_number line_loop letter_loop
scan_loop state [] s n full input = scanned [] full [] input
scan_loop false (c ∷ format) s n full input =
    let conversion = scan_loop true format s n full input in
    let letter : Scanned = elim (letter_loop c input) [
      | none ↦ waits
      | some input' ↦ scan_loop false format s n full input'
    ] in
    if c == percent then conversion else letter
scan_loop true (c ∷ format) s n full input =
    let number : Scanned = elim n [
      | none ↦ hangs
      | some [] ↦ reads_beyond
      | some (x ∷ xs) ↦
          printed_number (put_number x) (scan_loop false format s (some xs) full input)
    ] in
    let string : Scanned = elim (line_loop input []) [
      | none ↦ waits
      | some (x, input') ↦
          stored_text x (scan_loop false format s n (length x == buffersize) input')
    ] in
    if c == b'd' then number else if c == b's' then (if s then string else hangs) else hangs

-- `full` is what lies in the variable before anything is read.
unfoldable pub scan_ff : List ℕ → Bool → Option (List ℕ) → Bool → List ℕ → Scanned
unfolding scan_loop
scan_ff format s n full input = scan_loop false format s n full input
