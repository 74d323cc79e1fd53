-- ===== src/Screen/Cursor.antt =====
-- Kernel/video.c: what leaves the cursor alone, and where the cursor can be.
use mathlib.Core.Path.{subst}
use sistemas_operativos.Base.{
  ℕ, zero, suc, ◌+◌, ◌-◌, ◌≤◌, ◌<◌, ◌≡◌, refl, sym, ap, ◌∙◌, arith, ◌==◌, Bool-cases, inl, inr,
}
use sistemas_operativos.Screen.{
  Screen, width, height, show_column, show_columns, show_cell, update_screen, clear_position,
  copy_row_loop, copy_row, clear_row_loop, clear_row, scroll_loop, scroll, forward_cursor,
  backward_cursor, back_in_line, print_char, put_char, place, valid_position,
}

-- The cursor and the region that a module may write to.
pub record Position : Type 0 where
  pub i : ℕ
  pub j : ℕ
  pub i_start : ℕ
  pub j_start : ℕ

abbrev pub position : Screen → Position
position s = record { i = s.i; j = s.j; i_start = s.i_start; j_start = s.j_start }

show_column-position :
    (n f c : ℕ) (s : Screen)
    → (position (show_column n f c s) ≡ position s) × ((show_column n f c s).video ≡ s.video)
unfolding show_column
show_column-position zero f c s = (refl, refl)
show_column-position (suc n) f c s = show_column-position n (f + 1) c (show_cell f c s)

show_columns-position :
    (n c : ℕ) (s : Screen)
    → (position (show_columns n c s) ≡ position s) × ((show_columns n c s).video ≡ s.video)
unfolding show_columns
show_columns-position zero c s = (refl, refl)
show_columns-position (suc n) c s =
    let ih = show_columns-position n (c + 1) (show_column height 0 c s) in
    let column = show_column-position height 0 c s in (ih.0 ∙ column.0, ih.1 ∙ column.1)

pub update_screen-position :
    (s : Screen) → (position (update_screen s) ≡ position s) × ((update_screen s).video ≡ s.video)
unfolding update_screen
update_screen-position s = show_columns-position width 0 s

clear_position-position : (f c : ℕ) (s : Screen) → position (clear_position f c s) ≡ position s
clear_position-position f c s = elim (Bool-cases (valid_position f c)) [
  | inl valid ↦ rw valid
  | inr outside ↦ rw outside
]

pub copy_row_loop-position :
    (n k from to : ℕ) (s : Screen) → position (copy_row_loop n k from to s) ≡ position s
unfolding copy_row_loop
copy_row_loop-position zero k from to s = refl
copy_row_loop-position (suc n) k from to s =
    copy_row_loop-position n (k + 1) from to _ ∙ clear_position-position from k _

pub clear_row_loop-position :
    (n k f : ℕ) (s : Screen) → position (clear_row_loop n k f s) ≡ position s
unfolding clear_row_loop
clear_row_loop-position zero k f s = refl
clear_row_loop-position (suc n) k f s =
    clear_row_loop-position n (k + 1) f (clear_position f k s) ∙ clear_position-position f k s

pub scroll_loop-position : (n auxf : ℕ) (s : Screen) → position (scroll_loop n auxf s) ≡ position s
unfolding scroll_loop copy_row
scroll_loop-position zero auxf s = refl
scroll_loop-position (suc n) auxf s =
    scroll_loop-position n (auxf + 1) (copy_row auxf (auxf - 1) s)
    ∙ copy_row_loop-position width 0 auxf (auxf - 1) s

-- Scrolling puts the cursor at the start of the last row.
pub scroll-position :
    (s : Screen) → position (scroll s) ≡ record (position s) { i = s.i_start; j = height - 1 }
unfolding scroll clear_row
scroll-position s =
    ap (λ (p : Position). record p { i = p.i_start; j = height - 1 })
      (clear_row_loop-position width 0 (height - 1)
          (scroll_loop (height - (s.j_start + 1)) (s.j_start + 1) s)
        ∙ scroll_loop-position (height - (s.j_start + 1)) (s.j_start + 1) s)

print_char-position : (f c a : ℕ) (s : Screen) → position (print_char f c a s) ≡ position s
unfolding print_char
print_char-position f c a s = elim (Bool-cases (valid_position f c)) [
  | inl valid ↦ rw valid (update_screen-position (record s { video = place s.video f c a })).0
  | inr outside ↦ rw outside
]

-- The cursor stands in the region of the module.
pub record IsInside (p : Position) : Type 0 where
  pub right_of : p.i_start ≤ p.i
  pub in_row : p.i < width
  pub below : p.j_start ≤ p.j
  pub in_column : p.j < height

pub forward_cursor-IsInside :
    (s : Screen) → IsInside (position s) → IsInside (position (forward_cursor s))
unfolding forward_cursor
forward_cursor-IsInside s v = elim (Bool-cases (s.i == width - 1)) [
  | inl last ↦ elim (Bool-cases (s.j == height - 1)) [
    | inl bottom ↦
        rw (last, bottom)
          (subst IsInside (sym ((update_screen-position (scroll s)).0 ∙ scroll-position s))
            (ground arith))
    | inr above ↦ rw (last, above) (ground arith)
  ]
  | inr inside ↦ rw inside (ground arith)
]

pub backward_cursor-IsInside :
    (s : Screen) → IsInside (position s) → IsInside (position (backward_cursor s))
unfolding backward_cursor
backward_cursor-IsInside s v = ground arith

pub back_in_line-IsInside :
    (s : Screen) → IsInside (position s) → IsInside (position (back_in_line s))
unfolding back_in_line
back_in_line-IsInside s v = ground arith

pub put_char-IsInside :
    (a : ℕ) (s : Screen) → IsInside (position s) → IsInside (position (put_char a s))
unfolding put_char
put_char-IsInside a s v =
    forward_cursor-IsInside (print_char s.j s.i a s) (rw (print_char-position s.j s.i a s) v)
