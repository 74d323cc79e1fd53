-- ===== src/SystemCalls/Write.antt =====
-- Kernel/systemCalls.c over Kernel/video.c: writing a text and clearing the screen.
use sistemas_operativos.Base.{
  ℕ, zero, suc, ◌+◌, ◌-◌, ◌≤◌, ◌<◌, ◌≡◌, refl, ap, ◌∙◌, arith, List, [], ◌∷◌, Bool-cases, inl, inr,
  ◌==◌, leb, ◌&&◌, false, if◌then◌else◌, some, Option-cases,
}
use sistemas_operativos.Screen.{
  Screen, width, height, space, put_char, line_jump, clear_row, clear_row_loop, set_cursor,
  valid_position,
}
use sistemas_operativos.Screen.Cursor.{position, IsInside}
use sistemas_operativos.Screen.Jump.{Call, run, step, run-IsInside}
use sistemas_operativos.Screen.Scroll.{clear_row_video}
use sistemas_operativos.SystemCalls.{
  newline, write_loop, sys_call_write, clear_loop, sys_call_clear,
}

-- What the screen is asked for a text.
abbrev pub calls_of : List ℕ → List Call
calls_of [] = []
calls_of (c ∷ msg) = (if c == newline then Call.line else Call.put c) ∷ calls_of msg

write_loop-run : (msg : List ℕ) (s : Screen) → write_loop width msg s ≡ run (calls_of msg) s
unfolding write_loop run step
write_loop-run [] s = refl
write_loop-run (c ∷ msg) s = elim (Bool-cases (c == newline)) [
  | inl line ↦ rw line (elim (Option-cases (line_jump width s)) [
    | inl stuck ↦ rw (run, step, stuck)
    | inr (s', jumped) ↦ rw (run, step, jumped) (write_loop-run msg s')
  ])
  | inr letter ↦ rw letter (write_loop-run msg (put_char c s))
]

-- Writing any text to the screen ends, with as many rounds for each `lineJump` as a row has columns,
-- and leaves the cursor on the screen and behind the start of its program, if it was there before.
pub sys_call_write-IsInside :
    (msg : List ℕ) (s : Screen)
    → IsInside (position s)
    → (s' : Screen) × (sys_call_write width 0 msg s ≡ some s') × IsInside (position s')
unfolding sys_call_write
sys_call_write-IsInside msg s inside =
    let v = run-IsInside (calls_of msg) s inside in (v.0, write_loop-run msg s ∙ v.1, v.2)

clear_row_loop_outside : (n k row : ℕ) (s : Screen) → height ≤ row → clear_row_loop n k row s ≡ s
unfolding clear_row_loop
clear_row_loop_outside zero k row s out = refl
clear_row_loop_outside (suc n) k row s out =
    let outside : valid_position row k ≡ false = ground arith in
    rw outside (clear_row_loop_outside n (k + 1) row s out)

clear_row_outside : (row : ℕ) (s : Screen) → height ≤ row → clear_row row s ≡ s
unfolding clear_row
clear_row_outside row s out = clear_row_loop_outside width 0 row s out

clear_loop_video :
    (n i f c : ℕ) (s : Screen)
    → n ≤ i + 1
    → i < height
    → c < width
    → (clear_loop n i s).video f c ≡ (if leb (i + 1 - n) f && leb f i then space else s.video f c)
unfolding clear_loop
clear_loop_video zero i f c s le hi hc =
    let outside : (leb (i + 1 - 0) f && leb f i) ≡ false = ground arith in rw outside
clear_loop_video (suc n) i f c s le hi hc =
    let ih = clear_loop_video n (i - 1) f c (clear_row i s) (omega arith) (omega arith) hc in
    let row = clear_row_video i f c s hi hc in ih ∙ rw row (ground arith)

first_outside : (s : Screen) → clear_loop 23 25 s ≡ clear_loop 22 24 s
unfolding clear_loop
first_outside s = ap (clear_loop 22 24) (clear_row_outside 25 s (omega arith))

below :
    (x y f : ℕ) → f < height → (if leb 3 f && leb f 24 then x else y) ≡ (if leb 3 f then x else y)
below x y f hf = ground arith

-- `sys_call_clearC` clears the rows from 3 on, leaves those above, and puts the cursor at the start
-- of row 3.
sys_call_clear_video :
    (f c : ℕ) (s : Screen)
    → f < height
    → c < width
    → ((sys_call_clear s).video f c ≡ (if leb 3 f then space else s.video f c))
      × ((sys_call_clear s).j ≡ 3)
      × ((sys_call_clear s).i ≡ 0)
unfolding sys_call_clear set_cursor
sys_call_clear_video f c s hf hc =
    let bottom : clear_loop 23 25 s ≡ clear_loop 22 24 s = first_outside s in
    let rows = clear_loop_video 22 24 f c s (omega arith) (omega arith) hc in
    (ap (λ (t : Screen). t.video f c) bottom ∙ rows ∙ below space (s.video f c) f hf, refl, refl)
