-- ===== src/Keyboard/Table.antt =====
-- Kernel/keyboard.c: what each key sends. A row is the scan code and the characters without and with
-- shift, and the same two under caps lock; -1 stands for no character.
use sistemas_operativos.Base.{ℕ, List, [], ◌∷◌}

abbrev pub no_char : ℕ
no_char = 255

abbrev pub left_shift_make : ℕ
left_shift_make = 0x2A

abbrev pub right_shift_make : ℕ
right_shift_make = 0x36

abbrev pub caps_lock : ℕ
caps_lock = 0x3A

row : ℕ → ℕ → ℕ → ℕ → ℕ → List ℕ
row code plain shifted caps both = code ∷ plain ∷ shifted ∷ caps ∷ both ∷ []

unfoldable pub kbd_en : List (List ℕ)
unfolding row
kbd_en =
    row 0x00 no_char no_char no_char no_char
    ∷ row 0x01 no_char no_char no_char no_char
    ∷ row 0x02 b'1' b'!' b'1' b'!'
    ∷ row 0x03 b'2' b'@' b'2' b'@'
    ∷ row 0x04 b'3' b'#' b'3' b'#'
    ∷ row 0x05 b'4' b'$' b'4' b'$'
    ∷ row 0x06 b'5' b'%' b'5' b'%'
    ∷ row 0x07 b'6' b'^' b'6' b'^'
    ∷ row 0x08 b'7' b'&' b'7' b'&'
    ∷ row 0x09 b'8' b'*' b'8' b'*'
    ∷ row 0x0a b'9' b'(' b'9' b'('
    ∷ row 0x0b b'0' b')' b'0' b')'
    ∷ row 0x0c b'-' b'_' b'-' b'_'
    ∷ row 0x0d b'=' b'+' b'=' b'+'
    ∷ row 0x0e 8 8 8 8
    ∷ row 0x0f 9 9 9 9
    ∷ row 0x10 b'q' b'Q' b'Q' b'q'
    ∷ row 0x11 b'w' b'W' b'W' b'w'
    ∷ row 0x12 b'e' b'E' b'E' b'e'
    ∷ row 0x13 b'r' b'R' b'R' b'r'
    ∷ row 0x14 b't' b'T' b'T' b't'
    ∷ row 0x15 b'y' b'Y' b'Y' b'y'
    ∷ row 0x16 b'u' b'U' b'U' b'u'
    ∷ row 0x17 b'i' b'I' b'I' b'i'
    ∷ row 0x18 b'o' b'O' b'O' b'o'
    ∷ row 0x19 b'p' b'P' b'P' b'p'
    ∷ row 0x1a b'[' b'{' b'[' b'{'
    ∷ row 0x1b b']' b'}' b']' b'}'
    ∷ row 0x1c 10 10 10 10
    ∷ row 0x1d no_char no_char no_char no_char
    ∷ row 0x1e b'a' b'A' b'A' b'a'
    ∷ row 0x1f b's' b'S' b'S' b's'
    ∷ row 0x20 b'd' b'D' b'D' b'd'
    ∷ row 0x21 b'f' b'F' b'F' b'f'
    ∷ row 0x22 b'g' b'G' b'G' b'g'
    ∷ row 0x23 b'h' b'H' b'H' b'h'
    ∷ row 0x24 b'j' b'J' b'J' b'j'
    ∷ row 0x25 b'k' b'K' b'K' b'k'
    ∷ row 0x26 b'l' b'L' b'L' b'l'
    ∷ row 0x27 b';' b':' b';' b':'
    ∷ row 0x28 39 b'"' 39 b'"'
    ∷ row 0x29 b'`' b'~' b'`' b'~'
    ∷ row 0x2a left_shift_make left_shift_make left_shift_make left_shift_make
    ∷ row 0x2b 92 b'|' no_char b'|'
    ∷ row 0x2c b'z' b'Z' b'Z' b'z'
    ∷ row 0x2d b'x' b'X' b'X' b'x'
    ∷ row 0x2e b'c' b'C' b'C' b'c'
    ∷ row 0x2f b'v' b'V' b'V' b'v'
    ∷ row 0x30 b'b' b'B' b'B' b'b'
    ∷ row 0x31 b'n' b'N' b'N' b'n'
    ∷ row 0x32 b'm' b'M' b'M' b'm'
    ∷ row 0x33 b',' b'<' b',' b'<'
    ∷ row 0x34 b'.' b'>' b'.' b'>'
    ∷ row 0x35 b'/' b'?' b'/' b'?'
    ∷ row 0x36 right_shift_make right_shift_make right_shift_make right_shift_make
    ∷ row 0x37 b'*' no_char no_char no_char
    ∷ row 0x38 no_char no_char no_char no_char
    ∷ row 0x39 b' ' b' ' b' ' b' '
    ∷ row 0x3a caps_lock caps_lock caps_lock caps_lock
    ∷ row 0x3b no_char no_char no_char no_char
    ∷ row 0x3c no_char no_char no_char no_char
    ∷ row 0x3d no_char no_char no_char no_char
    ∷ row 0x3e no_char no_char no_char no_char
    ∷ row 0x3f no_char no_char no_char no_char
    ∷ row 0x40 no_char no_char no_char no_char
    ∷ row 0x41 no_char no_char no_char no_char
    ∷ row 0x42 no_char no_char no_char no_char
    ∷ row 0x43 no_char no_char no_char no_char
    ∷ row 0x44 no_char no_char no_char no_char
    ∷ row 0x45 no_char no_char no_char no_char
    ∷ row 0x46 no_char no_char no_char no_char
    ∷ row 0x47 b'7' no_char no_char no_char
    ∷ row 0x48 no_char no_char no_char no_char
    ∷ row 0x49 b'9' no_char no_char no_char
    ∷ row 0x4a b'-' no_char no_char no_char
    ∷ row 0x4b no_char no_char no_char no_char
    ∷ row 0x4c b'5' no_char no_char no_char
    ∷ row 0x4d no_char no_char no_char no_char
    ∷ row 0x4e b'+' no_char no_char no_char
    ∷ row 0x4f b'1' no_char no_char no_char
    ∷ row 0x50 no_char no_char no_char no_char
    ∷ row 0x51 b'3' no_char no_char no_char
    ∷ row 0x52 b'0' no_char no_char no_char
    ∷ row 0x53 b'.' no_char no_char no_char
    ∷ row 0x57 no_char no_char no_char no_char
    ∷ row 0x58 no_char no_char no_char no_char
    ∷ []
