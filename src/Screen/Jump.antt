-- ===== src/Screen/Jump.antt =====
-- Kernel/video.c, `lineJump`: when it ends, and the cursor under any calls.
use mathlib.Core.Path.{subst}
use sistemas_operativos.Base.{
  ℕ, zero, suc, ◌+◌, ◌-◌, ◌≤◌, ◌<◌, ◌^◌, ◌≡◌, ◌≢◌, refl, sym, arith, List, [], ◌∷◌, ◌==◌, ◌||◌,
  Bool-cases, inl, inr, true, false, if◌then◌else◌, add32, Option, none, some, ==_ne,
}
use sistemas_operativos.Screen.{
  Screen, width, height, scroll, forward_cursor, jump_loop, line_jump, backward_cursor,
  back_in_line, put_char, change_start_module, less,
}
use sistemas_operativos.Screen.Cursor.{
  position, IsInside, forward_cursor-IsInside, backward_cursor-IsInside, back_in_line-IsInside,
  put_char-IsInside, scroll-position,
}

jump_loop_there : (n aux : ℕ) (s : Screen) → s.j ≡ aux → jump_loop n aux s ≡ some s
unfolding jump_loop
jump_loop_there zero aux s e = let there : (s.j == aux) ≡ true = ground arith in rw there
jump_loop_there (suc n) aux s e = let there : (s.j == aux) ≡ true = ground arith in rw there

jump_loop_lem :
    (n : ℕ) (s : Screen)
    → s.j + 1 < height
    → s.i < width
    → width ≤ n + s.i
    → jump_loop n (s.j + 1) s ≡ some (record s { j = s.j + 1; i = s.i_start })
unfolding jump_loop forward_cursor
jump_loop_lem zero s above inside enough = absurd (omega arith)
jump_loop_lem (suc n) s above inside enough =
    let not_yet : (s.j == (s.j + 1)) ≡ false = ground arith in
    elim (Bool-cases (s.i == width - 1)) [
      | inl last ↦
          let middle : (s.j == height - 1) ≡ false = ground arith in
          let next : add32 s.j 1 ≡ s.j + 1 = omega arith in
          rw (not_yet, last, middle, next)
            (jump_loop_there n (s.j + 1) (record s { j = s.j + 1; i = s.i_start }) refl)
      | inr more ↦
          let next : add32 s.i 1 ≡ s.i + 1 = omega arith in
          rw (not_yet, more, next)
            (jump_loop_lem n (record s { i = s.i + 1 }) above (ground arith) (omega arith))
    ]

-- Above the last row, `lineJump` ends after no more rounds than a row has columns, and puts the
-- cursor at the start of the next row; nothing else changes. In the last row it scrolls.
line_jump_ends :
    (fuel : ℕ) (s : Screen)
    → s.j < height
    → s.i < width
    → width ≤ fuel
    → line_jump fuel s
      ≡ some (if s.j == height - 1 then scroll s else record s { j = s.j + 1; i = s.i_start })
unfolding line_jump
line_jump_ends fuel s inside row enough = elim (Bool-cases (s.j == height - 1)) [
  | inl bottom ↦ rw bottom
  | inr above ↦
      let next : add32 s.j 1 ≡ s.j + 1 = omega arith in
      rw (above, next) (jump_loop_lem fuel s (ground arith) row (omega arith))
]

jump_loop_stuck :
    (n aux : ℕ) (s : Screen) → s.j ≢ aux → width ≤ s.i → n + s.i < 2 ^ 32 → jump_loop n aux s ≡ none
unfolding jump_loop forward_cursor
jump_loop_stuck zero aux s apart outside bound = rw (==_ne s.j aux apart)
jump_loop_stuck (suc n) aux s apart outside bound =
    let more : (s.i == width - 1) ≡ false = ground arith in
    let next : add32 s.i 1 ≡ s.i + 1 = omega arith in
    rw (==_ne s.j aux apart, more, next)
      (jump_loop_stuck n aux (record s { i = s.i + 1 }) apart (omega arith) (omega arith))

-- `changeStartModule` lets a module start behind the last column; a new line asked for above the
-- last row then does not end in two thousand million rounds.
line_jump_stuck :
    (fuel c : ℕ) (s : Screen)
    → 3 ≤ c
    → c ≤ height
    → s.j < height - 1
    → fuel < 2 ^ 31
    → line_jump fuel (change_start_module width c s) ≡ none
unfolding line_jump change_start_module
line_jump_stuck fuel c s low high above bound =
    let taken : (less width 0 || less width width || less c 3 || less height c) ≡ false =
      ground arith in
    let middle : (s.j == height - 1) ≡ false = ground arith in
    rw (taken, middle)
      (jump_loop_stuck fuel (add32 s.j 1) (record s { j_start = c; i_start = width; i = width })
        (omega arith) (omega arith) (omega arith))

-- What the terminal, the system calls and the programs do to the cursor.
pub data Call : Type 0 where
  put : ℕ → Call
  forward backward back line : Call

unfoldable pub step : Call → Screen → Option Screen
step (put a) s = some (put_char a s)
step forward s = some (forward_cursor s)
step backward s = some (backward_cursor s)
step back s = some (back_in_line s)
step line s = line_jump width s

unfoldable pub run : List Call → Screen → Option Screen
unfolding step
run [] s = some s
run (call ∷ calls) s = elim (step call s) [ none ↦ none | some s' ↦ run calls s' ]

record Inside (o : Option Screen) : Type 0 where
  screen : Screen
  there : o ≡ some screen
  inside : IsInside (position screen)

step-Inside : (call : Call) (s : Screen) → IsInside (position s) → Inside (step call s)
unfolding step
step-Inside (put a) s v = record {
  screen = put_char a s;
  there = refl;
  inside = put_char-IsInside a s v;
}
step-Inside forward s v = record {
  screen = forward_cursor s;
  there = refl;
  inside = forward_cursor-IsInside s v;
}
step-Inside backward s v = record {
  screen = backward_cursor s;
  there = refl;
  inside = backward_cursor-IsInside s v;
}
step-Inside back s v = record {
  screen = back_in_line s;
  there = refl;
  inside = back_in_line-IsInside s v;
}
step-Inside line s v = record {
  screen = if s.j == height - 1 then scroll s else record s { j = s.j + 1; i = s.i_start };
  there = line_jump_ends width s v.in_column v.in_row (omega arith);
  inside = elim (Bool-cases (s.j == height - 1)) [
    | inl bottom ↦ rw bottom (subst IsInside (sym (scroll-position s)) (ground arith))
    | inr above ↦ rw above (ground arith)
  ];
}

-- From a cursor in the module's region, any characters, moves and new lines all end and leave the
-- cursor in that region.
pub run-IsInside :
    (calls : List Call) (s : Screen)
    → IsInside (position s)
    → (s' : Screen) × (run calls s ≡ some s') × IsInside (position s')
unfolding run
run-IsInside [] s v = (s, refl, v)
run-IsInside (call ∷ calls) s v =
    let first = step-Inside call s v in
    let (s', e, w) = run-IsInside calls first.screen first.inside in
    (s', rw (first.there, run) e, w)
