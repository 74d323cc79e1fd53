-- ===== src/Mouse.antt =====
-- Kernel/mouse.c, `mouse_handlerC`, over the screen and the terminal buffer: bytes of the mouse in
-- packets of three. What the ports give is a list of readings, the status of port 0x64 and the byte
-- of port 0x60; a byte is its 8 bits and an `int` its pattern. Starting the mouse is left out.
pub mod Packets
pub mod Bounds
pub mod Tests
use sistemas_operativos.Base.{
  ℕ, ◌+◌, ◌-◌, ◌/◌, ◌%◌, ◌^◌, List, [], ◌∷◌, Bool, true, false, ◌&&◌, ◌||◌, not, if◌then◌else◌,
  ◌==◌, ltb, leb, add32, sub32,
}
use sistemas_operativos.Printing.{div_ten}
use sistemas_operativos.Terminal.{Terminal}
use sistemas_operativos.Screen.{
  Screen, less, undo_selection, selection, update_screen, paste, udraw_mouse, draw_mouse,
}

-- The variables of mouse.c, and what the handler works on; `flag` and `selecting` are 0 or 1.
pub record Mouse : Type 0 where
  pub mouse_cycle : ℕ
  pub byte_0 : ℕ
  pub byte_1 : ℕ
  pub byte_2 : ℕ
  pub flag : Bool
  pub x : ℕ
  pub y : ℕ
  pub xinit : ℕ
  pub yinit : ℕ
  pub xfin : ℕ
  pub yfin : ℕ
  pub selecting : Bool
  pub screen : Screen
  pub terminal : Terminal

abbrev pub bit : ℕ → ℕ → Bool
bit k b = b / 2 ^ k % 2 == 1

-- The selection ends before its beginning.
abbrev pub is_turned : Mouse → Bool
is_turned m = less m.yfin m.yinit || ((m.yfin == m.yinit) && less m.xfin m.xinit)

unfoldable pub unmark : Mouse → Mouse
unmark m = record m {
  screen =
      if is_turned m
      then undo_selection m.yfin m.xfin m.yinit m.xinit m.screen
      else undo_selection m.yinit m.xinit m.yfin m.xfin m.screen;
}

unfoldable pub mark : Mouse → Mouse
mark m = record m {
  screen =
      if is_turned m
      then selection m.yfin m.xfin m.yinit m.xinit m.screen
      else selection m.yinit m.xinit m.yfin m.xfin m.screen;
}

unfoldable pub left_button : Mouse → Mouse
unfolding unmark mark
left_button m =
    let extended = record (unmark m) { xfin = m.x; yfin = m.y } in
    let begun = record m { selecting = true; xinit = m.x; yinit = m.y; xfin = m.x; yfin = m.y } in
    let ended = record (unmark m) {
      selecting = false;
      screen = update_screen ((unmark m).screen);
    } in
    if bit 0 m.byte_0
    then mark (if m.selecting then extended else begun)
    else if m.selecting
    then ended
    else m

unfoldable pub right_button : Mouse → Mouse
right_button m =
    if bit 1 m.byte_0
    then record m { flag = true }
    else if m.flag
    then record m { terminal = paste m.screen m.terminal; flag = false }
    else m

-- `rel_x` and `rel_y` from the bit of the sign and the byte, which is an `int8_t`.
abbrev pub relative : Bool → ℕ → ℕ
relative sign byte =
    if sign then byte + (2 ^ 32 - 2 ^ 8) else if ltb byte 128 then byte else byte + (2 ^ 32 - 2 ^ 8)

abbrev pub new_x : Mouse → ℕ
new_x m =
    let there = add32 m.x (div_ten (relative (bit 4 m.byte_0) m.byte_1)) in
    if less there 80 && not (less there 0) then there else m.x

abbrev pub new_y : Mouse → ℕ
new_y m =
    let there = sub32 m.y (div_ten (relative (bit 5 m.byte_0) m.byte_2)) in
    if less there 25 && not (less there 0) then there else m.y

unfoldable pub move : Mouse → Mouse
move m = record m {
  x = new_x m;
  y = new_y m;
  screen = update_screen (draw_mouse (new_y m) (new_x m) (udraw_mouse m.y m.x m.screen));
}

-- What is done with the third byte.
unfoldable pub packet : Mouse → Mouse
unfolding left_button right_button move
packet m =
    let moved = move (right_button (left_button m)) in
    if bit 7 m.byte_0 || bit 6 m.byte_0
    then record m { mouse_cycle = 4 }
    else record moved { mouse_cycle = 4 }

-- The `switch`, with whether the handler returns in it.
unfoldable pub take_byte : ℕ → Mouse → Bool × Mouse
unfolding packet
take_byte mouse_in m =
    let first = record m { byte_0 = mouse_in } in
    if m.mouse_cycle == 0
    then if not (bit 3 mouse_in) then (true, first) else (false, record first { mouse_cycle = 1 })
    else if m.mouse_cycle == 1
    then (false, record m { byte_1 = mouse_in; mouse_cycle = 2 })
    else if m.mouse_cycle == 2
    then (false, packet (record m { byte_2 = mouse_in }))
    else (false, m)

-- The state and the readings that are left.
unfoldable pub mouse_handler : List (ℕ × ℕ) → Mouse → Mouse × List (ℕ × ℕ)
unfolding take_byte
mouse_handler [] m = (m, [])
mouse_handler ((status, mouse_in) ∷ input) m =
    let taken : Bool × Mouse = if bit 5 status then take_byte mouse_in m else (false, m) in
    let rest = mouse_handler input (taken.1) in
    if not (bit 0 status)
    then (m, (status, mouse_in) ∷ input)
    else if taken.0
    then (taken.1, input)
    else if leb 4 ((taken.1).mouse_cycle)
    then (record (taken.1) { mouse_cycle = 0 }, input)
    else rest
