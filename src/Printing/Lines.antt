-- ===== src/Printing/Lines.antt =====
-- Kernel/stdio.c, `scanFF`: reading a line.
use mathlib.Core.List.{reverse, reverse-cons}
use sistemas_operativos.Base.{
  ℕ, ◌+◌, ◌≤◌, ◌≡◌, ◌≢◌, ap, ◌∙◌, arith, List, [], ◌∷◌, ◌++◌, append_assoc, append-nil, length,
  ◌==◌, ==_ne, Bool, true, false, Option, some,
}
use sistemas_operativos.Printing.{
  line_loop, scan_ff, scan_loop, scanned, newline, backspace, buffersize, percent,
}

-- Characters that are no line's end and edit nothing.
abbrev pub Plain : List ℕ → Type 0
Plain [] = Unit
Plain (c ∷ text) = (c ≢ newline) × (c ≢ backspace) × Plain text

line_loop_lem :
    (text input string : List ℕ)
    → Plain text
    → length string + length text ≤ buffersize
    → line_loop (text ++ newline ∷ input) string ≡ some (reverse string ++ text, input)
unfolding line_loop
line_loop_lem [] input string plain le =
    let e : reverse string ++ [] ≡ reverse string = append-nil (reverse string) in rw e
line_loop_lem (c ∷ text) input string plain le =
    let not_newline : (c == newline) ≡ false = ==_ne c newline (plain.0) in
    let not_backspace : (c == backspace) ≡ false = ==_ne c backspace (plain.1) in
    let not_full : (length string == buffersize) ≡ false = ground arith in
    let ih = line_loop_lem text input (c ∷ string) (plain.2) (omega arith) in
    let turned : reverse (c ∷ string) ++ text ≡ reverse string ++ c ∷ text =
      ap (λ (xs : List ℕ). xs ++ text) (reverse-cons c string)
      ∙ append_assoc (reverse string) (c ∷ []) text in
    rw (not_newline, not_backspace, not_full) (ih ∙ rw turned)

-- `scanFF` with the format "%s" stores a line of at most 100 characters, none of which is a
-- backspace, as it stands, takes it and its end from the input, and reports an overflow for 100
-- characters.
pub scan_ff-line :
    (text input : List ℕ) (before : Bool) (numbers : Option (List ℕ))
    → Plain text
    → length text ≤ buffersize
    → scan_ff (percent ∷ b's' ∷ []) true numbers before (text ++ newline ∷ input)
      ≡ scanned (text ∷ []) (length text == buffersize) [] input
unfolding scan_ff scan_loop
scan_ff-line text input before numbers plain le =
    rw (line_loop_lem text input [] plain (omega (arith, le)))
