-- ===== src/Screen.antt =====
-- Kernel/video.c: the text screen, its cursor and the selection of the mouse. An `int` is its bit
-- pattern; `shown` is the memory from 0xB8000 on.
pub mod Cursor
pub mod Jump
pub mod Scroll
pub mod Tests
use sistemas_operativos.Base.{
  ℕ, zero, suc, ◌+◌, ◌-◌, ◌*◌, ◌/◌, ◌%◌, ◌^◌, List, [], ◌∷◌, Bool, true, false, ◌&&◌, ◌||◌, not,
  if◌then◌else◌, ◌==◌, ltb, leb, update, add32, sub32, neg, non_negative, Option, none, some,
}
use sistemas_operativos.Terminal.{Terminal, put_terminal_buffer}

abbrev pub width : ℕ
width = 80

abbrev pub height : ℕ
height = 25

abbrev pub space : ℕ
space = 0x20

abbrev pub default_color : ℕ
default_color = 0x0F

abbrev pub mouse_color : ℕ
mouse_color = 0x30

-- `i` is the column of the cursor and `j` its row.
pub record Screen : Type 0 where
  pub video : ℕ → ℕ → ℕ
  pub attributes : ℕ → ℕ → ℕ
  pub i : ℕ
  pub j : ℕ
  pub mouse_select : ℕ → ℕ
  pub size : ℕ
  pub i_start : ℕ
  pub j_start : ℕ
  pub stop_backwards : ℕ
  pub shown : ℕ → ℕ

-- Comparison of two `int`s.
abbrev pub less : ℕ → ℕ → Bool
less a b = ltb (add32 a (2 ^ 31)) (add32 b (2 ^ 31))

abbrev pub place : (ℕ → ℕ → ℕ) → ℕ → ℕ → ℕ → ℕ → ℕ → ℕ
place grid f c v f' c' = if (f == f') && (c == c') then v else grid f' c'

abbrev pub valid_position : ℕ → ℕ → Bool
valid_position f c = ltb f height && ltb c width

unfoldable pub change_start_module : ℕ → ℕ → Screen → Screen
change_start_module f c s =
    if less f 0 || less width f || less c 3 || less height c
    then s
    else record s { j_start = c; i_start = f; i = f }

unfoldable pub change_stop_backwards : ℕ → Screen → Screen
change_stop_backwards from s = record s { stop_backwards = from }

unfoldable pub is_backwards_on : Screen → Bool
is_backwards_on s = if s.stop_backwards == neg 1 then true else not (less s.i s.stop_backwards)

unfoldable pub set_cursor : ℕ → ℕ → Screen → Screen
set_cursor f c s = if valid_position f c then record s { i = c; j = f } else s

-- One cell of `updateScreen`.
abbrev pub show_cell : ℕ → ℕ → Screen → Screen
show_cell f c s = record s {
  shown =
      update (update s.shown (f * width * 2 + c * 2) (s.video f c)) (f * width * 2 + c * 2 + 1)
        (s.attributes f c);
}

-- The loops of `updateScreen`, the rounds left first.
pub show_column : ℕ → ℕ → ℕ → Screen → Screen
show_column zero f c s = s
show_column (suc n) f c s = show_column n (f + 1) c (show_cell f c s)

pub show_columns : ℕ → ℕ → Screen → Screen
unfolding show_column
show_columns zero c s = s
show_columns (suc n) c s = show_columns n (c + 1) (show_column height 0 c s)

unfoldable pub update_screen : Screen → Screen
unfolding show_columns
update_screen s = show_columns width 0 s

-- -1 outside the screen.
unfoldable pub change_color : ℕ → ℕ → ℕ → Screen → Screen
change_color f c color s = record s { shown = update s.shown (f * width * 2 + c * 2 + 1) color }

unfoldable pub get_screen : ℕ → ℕ → Screen → ℕ
get_screen f c s = if valid_position f c then s.video f c else neg 1

abbrev pub clear_position : ℕ → ℕ → Screen → Screen
clear_position f c s =
    if valid_position f c then record s { video = place s.video f c space } else s

-- The loop of `copyRow`: the rounds left, and the column.
pub copy_row_loop : ℕ → ℕ → ℕ → ℕ → Screen → Screen
copy_row_loop zero k from to s = s
copy_row_loop (suc n) k from to s =
    copy_row_loop n (k + 1) from to
      (clear_position from k (record s { video = place s.video to k (s.video from k) }))

unfoldable pub copy_row : ℕ → ℕ → Screen → Screen
unfolding copy_row_loop
copy_row from to s = copy_row_loop width 0 from to s

unfoldable pub clear_row_loop : ℕ → ℕ → ℕ → Screen → Screen
clear_row_loop zero k f s = s
clear_row_loop (suc n) k f s = clear_row_loop n (k + 1) f (clear_position f k s)

unfoldable pub clear_row : ℕ → Screen → Screen
unfolding clear_row_loop
clear_row f s = clear_row_loop width 0 f s

-- The loop of `scroll`: the rounds left, and `auxf`.
pub scroll_loop : ℕ → ℕ → Screen → Screen
scroll_loop zero auxf s = s
scroll_loop (suc n) auxf s = scroll_loop n (auxf + 1) (copy_row auxf (auxf - 1) s)

unfoldable pub scroll : Screen → Screen
unfolding scroll_loop
scroll s =
    let s' = clear_row (height - 1) (scroll_loop (height - (s.j_start + 1)) (s.j_start + 1) s) in
    record s' { j = height - 1; i = s'.i_start }

unfoldable pub forward_cursor : Screen → Screen
forward_cursor s =
    if s.i == width - 1
    then if s.j == height - 1
      then update_screen (scroll s)
      else record s { j = add32 s.j 1; i = s.i_start }
    else record s { i = add32 s.i 1 }

-- The `while` loop of `lineJump`, on fuel: `none` if it has not ended.
pub jump_loop : ℕ → ℕ → Screen → Option Screen
jump_loop zero aux s = if s.j == aux then some s else none
jump_loop (suc n) aux s =
    let rest = jump_loop n aux (forward_cursor s) in if s.j == aux then some s else rest

-- A row has 80 columns, so as many rounds are enough from inside the screen.
unfoldable pub line_jump : ℕ → Screen → Option Screen
unfolding jump_loop
line_jump fuel s = if s.j == height - 1 then some (scroll s) else jump_loop fuel (add32 s.j 1) s

unfoldable pub backward_cursor : Screen → Screen
backward_cursor s =
    if s.i == s.i_start
    then if s.j == s.j_start then s else record s { j = sub32 s.j 1; i = width - 1 }
    else record s { i = sub32 s.i 1 }

unfoldable pub back_in_line : Screen → Screen
back_in_line s = if s.i == s.i_start then s else record s { i = sub32 s.i 1 }

unfoldable pub print_char : ℕ → ℕ → ℕ → Screen → Screen
print_char f c a s =
    if valid_position f c then update_screen (record s { video = place s.video f c a }) else s

unfoldable pub put_char : ℕ → Screen → Screen
put_char a s = forward_cursor (print_char s.j s.i a s)

abbrev pub draw_mouse : ℕ → ℕ → Screen → Screen
draw_mouse f c s =
    if valid_position f c then record s { attributes = place s.attributes f c mouse_color } else s

abbrev pub udraw_mouse : ℕ → ℕ → Screen → Screen
udraw_mouse f c s =
    if valid_position f c then record s { attributes = place s.attributes f c default_color } else s

-- The loop of `copyMouse`: the rounds left, and `h`.
copy_mouse_loop : ℕ → ℕ → ℕ → Screen → Screen
copy_mouse_loop zero h initial s = s
copy_mouse_loop (suc n) h initial s =
    let c = get_screen ((h + initial) / width) ((h + initial) % width) s in
    let shown : ℕ = if c == 0 then space else c in
    copy_mouse_loop n (h + 1) initial (record s { mouse_select = update s.mouse_select h shown })

-- `end` is not before `initial` in the calls.
unfoldable pub copy_mouse : ℕ → ℕ → Screen → Screen
unfolding copy_mouse_loop
copy_mouse initial end_ s =
    copy_mouse_loop (end_ + 1 - initial) 0 initial (record s { size = end_ + 1 - initial })

-- The loops of `selection` and `undoSelection` over the cells from `i` to `fin`, which end at the end
-- of the screen; `draw` is what is done to a cell.
cells_loop : (ℕ → ℕ → Screen → Screen) → ℕ → ℕ → ℕ → Screen → Screen
cells_loop draw zero i fin s = s
cells_loop draw (suc n) i fin s =
    let rest = cells_loop draw n (i + 1) fin (draw (i / width) (i % width) s) in
    if valid_position (i / width) (i % width) && leb i fin then rest else s

unfoldable pub selection : ℕ → ℕ → ℕ → ℕ → Screen → Screen
unfolding cells_loop
selection finit cinit ffin cfin s =
    let i : ℕ = finit * width + cinit in
    let fin : ℕ = ffin * width + cfin in
    cells_loop draw_mouse (width * height) i fin (copy_mouse i fin s)

unfoldable pub undo_selection : ℕ → ℕ → ℕ → ℕ → Screen → Screen
unfolding cells_loop
undo_selection finit cinit ffin cfin s =
    cells_loop udraw_mouse (width * height) (finit * width + cinit) (ffin * width + cfin) s

-- The loop of `printMsg`, from cell `i` on; it stops at the end of the screen.
msg_loop : ℕ → List ℕ → Screen → Screen
msg_loop i [] s = s
msg_loop i (a ∷ msg) s =
    let rest = msg_loop (i + 1) msg (print_char (i / width) (i % width) a s) in
    if valid_position (i / width) (i % width) then rest else s

unfoldable pub print_msg : ℕ → ℕ → List ℕ → Screen → Screen
unfolding msg_loop
print_msg f c msg s = if valid_position f c then msg_loop (f * width + c) msg s else s

unfoldable pub print_msg_cursor : List ℕ → Screen → Screen
print_msg_cursor [] s = s
print_msg_cursor (a ∷ msg) s = print_msg_cursor msg (put_char a s)

-- The loops of `clear`: the columns, or rows, left.
clear_line : ℕ → ℕ → ℕ → Screen → Screen
clear_line zero f c s = s
clear_line (suc n) f c s = clear_line n f (c + 1) (record s {
  video = place s.video f c space;
  attributes = place s.attributes f c default_color;
})

clear_lines : ℕ → ℕ → Screen → Screen
unfolding clear_line
clear_lines zero f s = s
clear_lines (suc n) f s = clear_lines n (f + 1) (clear_line width f 0 s)

unfoldable pub clear : Screen → Screen
unfolding clear_lines
clear s = update_screen (clear_lines height 0 s)

-- The loop of `paste`: the rounds left, and `h`.
paste_loop : ℕ → ℕ → (ℕ → ℕ) → Terminal → Terminal
paste_loop zero h mouse_select t = t
paste_loop (suc n) h mouse_select t =
    paste_loop n (h + 1) mouse_select (put_terminal_buffer (mouse_select h) t)

unfoldable pub paste : Screen → Terminal → Terminal
unfolding paste_loop
paste s t = paste_loop s.size 0 s.mouse_select t
