-- ===== src/Mouse/Tests.antt =====
-- Packets of the mouse, and the theorems there.
use sistemas_operativos.Base.{ℕ, ◌-◌, ◌<◌, ◌≡◌, refl, arith, List, [], ◌∷◌, false, if◌then◌else◌}
use sistemas_operativos.Screen.Tests.{screen}
use sistemas_operativos.Terminal.Tests.{wrapped}
use sistemas_operativos.Mouse.{Mouse, bit, mouse_handler, take_byte}
use sistemas_operativos.Mouse.Bounds.{IsOnScreen, mouse_handler-IsOnScreen}
use sistemas_operativos.Mouse.Packets.{forward, back, is_back, packet_moves}

abbrev mouse : Mouse
mouse = record {
  mouse_cycle = 0;
  byte_0 = 0;
  byte_1 = 0;
  byte_2 = 0;
  flag = false;
  x = 10;
  y = 10;
  xinit = 0;
  yinit = 0;
  xfin = 0;
  yfin = 0;
  selecting = false;
  screen = screen;
  terminal = wrapped;
}

-- A packet that begins while the left button is held, and a byte of the keyboard.
abbrev readings : List (ℕ × ℕ)
readings = (0x21, 0x09) ∷ (0x21, 50) ∷ (0x01, 0x1E) ∷ []

mouse_handler-IsOnScreen_example :
    (((mouse_handler readings mouse).0).mouse_cycle < 3)
    × IsOnScreen ((mouse_handler readings mouse).0)
mouse_handler-IsOnScreen_example =
    mouse_handler-IsOnScreen readings mouse (omega arith) (omega arith)

-- The handler takes the byte of the keyboard and drops it.
keyboard_dropped : (mouse_handler readings mouse).1 ≡ []
unfolding mouse_handler take_byte
keyboard_dropped = refl

-- 200 to the right is taken for 56 to the left.
packet_moves_example :
    let r = mouse_handler ((0x21, 0x08) ∷ (0x21, 200) ∷ (0x21, 30) ∷ []) mouse in
    ((r.0).x ≡ (if is_back (bit 4 0x08) 200 then back 10 (256 - 200) else forward 80 10 200))
    × ((r.0).y ≡ (if is_back (bit 5 0x08) 30 then forward 25 10 (256 - 30) else back 10 30))
    × ((r.0).mouse_cycle ≡ 0)
    × (r.1 ≡ [])
packet_moves_example =
    packet_moves 0x08 200 30 [] mouse refl (omega arith) (omega arith) (omega arith) (omega arith)
      refl refl
