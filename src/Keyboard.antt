-- ===== src/Keyboard.antt =====
-- Kernel/keyboard.c: from scan codes to the terminal buffer. A `char` is its byte.
pub mod Table
pub mod Keys
pub mod Tests
use sistemas_operativos.Base.{
  ℕ, suc, ◌+◌, List, [], ◌∷◌, length, Bool, true, false, ◌&&◌, ◌||◌, not, if◌then◌else◌, ◌==◌, ltb,
  get_or,
}
use sistemas_operativos.Terminal.{Terminal, put_terminal_buffer, reset_buffer}
use sistemas_operativos.Keyboard.Table.{
  kbd_en, no_char, left_shift_make, right_shift_make, caps_lock,
}

abbrev pub left_shift_break : ℕ
left_shift_break = 0xAA

abbrev pub right_shift_break : ℕ
right_shift_break = 0xB6

abbrev pub on : ℕ
on = 1

abbrev pub off : ℕ
off = 0

-- `restarts` counts the calls of `restartSHELL`, of which the terminal sees the reset of its buffer.
pub record Keyboard : Type 0 where
  pub shift : ℕ
  pub caps : ℕ
  pub terminal : Terminal
  pub restarts : ℕ

-- `beyond` gives what lies outside the table.
unfoldable pub entry : (ℕ → ℕ → ℕ) → ℕ → ℕ → ℕ
entry beyond c column =
    if ltb c (length kbd_en) then get_or (get_or kbd_en c []) column 0 else beyond c column

abbrev pub send : ℕ → Keyboard → Keyboard
send a k = record k { terminal = put_terminal_buffer a k.terminal }

-- The column for the state of the keyboard.
abbrev pub column : Keyboard → ℕ
column k =
    if (k.caps == on) && (k.shift == on)
    then 4
    else if k.caps == on
    then 3
    else if k.shift == on
    then 2
    else 1

abbrev pub restart : Keyboard → Keyboard
restart k = record k { terminal = reset_buffer k.terminal; restarts = k.restarts + 1 }

-- The part of the handler behind the keys that change its state.
pub handle_key : (ℕ → ℕ → ℕ) → ℕ → Keyboard → Keyboard
handle_key beyond c k =
    let k' : Keyboard = if (k.shift == on) && (c == 0x3B) then restart k else k in
    if ltb c 0x80 && not (entry beyond c 1 == no_char)
    then send (entry beyond c (column k')) k'
    else k'

unfoldable pub keyboard_handler : (ℕ → ℕ → ℕ) → ℕ → Keyboard → Keyboard
unfolding handle_key
keyboard_handler beyond c k =
    if c == caps_lock
    then record k { caps = if k.caps == on then off else on }
    else if (c == left_shift_make) || (c == right_shift_make)
    then record k { shift = on }
    else if (c == left_shift_break) || (c == right_shift_break)
    then record k { shift = off }
    else handle_key beyond c k
