-- ===== src/Keyboard/Tests.antt =====
-- Keys over a small terminal buffer, and the theorems there.
use sistemas_operativos.Base.{ℕ, ◌-◌, ◌≡◌, refl, arith, length, if◌then◌else◌, ◌==◌}
use sistemas_operativos.Terminal.Tests.{wrapped}
use sistemas_operativos.Keyboard.Table.{kbd_en}
use sistemas_operativos.Keyboard.{Keyboard, keyboard_handler, send, entry, on}
use sistemas_operativos.Keyboard.Keys.{keyboard_handler-letter}

abbrev keyboard : Keyboard
keyboard = record { shift = 0; caps = 1; terminal = wrapped; restarts = 0 }

abbrev beyond : ℕ → ℕ → ℕ
beyond c column = 255

-- The key of the letter a.
inside_table : (length kbd_en ≡ 86) × (entry beyond 0x1E 1 ≡ b'a')
unfolding kbd_en entry
inside_table = (refl, refl)

keyboard_handler-letter_example :
    keyboard_handler beyond 0x1E keyboard
    ≡ send
        (if keyboard.caps == on
          then (if keyboard.shift == on then entry beyond 0x1E 1 else entry beyond 0x1E 1 - 32)
          else if keyboard.shift == on
          then entry beyond 0x1E 1 - 32
          else entry beyond 0x1E 1)
        keyboard
keyboard_handler-letter_example =
    keyboard_handler-letter beyond 0x1E keyboard (omega (arith, inside_table.0))
      (ground (arith, inside_table.1))
