-- ===== src/Screen/Scroll.antt =====
-- Kernel/video.c, `scroll`: what becomes of the rows.
use sistemas_operativos.Base.{
  ℕ, zero, suc, ◌+◌, ◌-◌, ◌<◌, ◌≡◌, ◌≢◌, refl, ap, ◌∙◌, arith, ◌==◌, ◌&&◌, Bool-cases, inl, inr,
  true, false, if◌then◌else◌, ltb, leb, dec_lt,
}
use sistemas_operativos.Screen.{
  Screen, width, height, space, place, clear_position, valid_position, copy_row_loop, copy_row,
  clear_row_loop, clear_row, scroll_loop, scroll,
}

-- One cell of `copyRow`.
abbrev copy_cell : ℕ → ℕ → ℕ → Screen → Screen
copy_cell k from to s =
    clear_position from k (record s { video = place s.video to k (s.video from k) })

copy_cell_video :
    (k from to f c : ℕ) (s : Screen)
    → k < width
    → from < height
    → to ≢ from
    → (copy_cell k from to s).video f c ≡ (
        if c == k
        then (if f == to then s.video from c else if f == from then space else s.video f c)
        else s.video f c)
copy_cell_video k from to f c s hk hf apart =
    let valid : valid_position from k ≡ true = ground arith in
    elim (Bool-cases (c == k)) [
      | inl same ↦ let e : c ≡ k = ground arith in rw (valid, e) (ground arith)
      | inr other ↦ rw (valid, other) (ground arith)
    ]

copy_row_loop_video :
    (n k from to f c : ℕ) (s : Screen)
    → k + n ≡ width
    → from < height
    → to ≢ from
    → c < width
    → (copy_row_loop n k from to s).video f c ≡ (
        if leb k c
        then (if f == to then s.video from c else if f == from then space else s.video f c)
        else s.video f c)
unfolding copy_row_loop
copy_row_loop_video zero k from to f c s e hf apart hc =
    let before : leb k c ≡ false = ground arith in rw before
copy_row_loop_video (suc n) k from to f c s e hf apart hc =
    let s' = copy_cell k from to s in
    ground (
      arith,
      copy_row_loop_video n (k + 1) from to f c s' (omega arith) hf apart hc,
      copy_cell_video k from to f c s (omega arith) hf apart,
      copy_cell_video k from to from c s (omega arith) hf apart,
    )

copy_row_video :
    (from to f c : ℕ) (s : Screen)
    → from < height
    → to ≢ from
    → c < width
    → (copy_row from to s).video f c
      ≡ (if f == to then s.video from c else if f == from then space else s.video f c)
unfolding copy_row
copy_row_video from to f c s hf apart hc =
    let all : leb 0 c ≡ true = ground arith in
    copy_row_loop_video width 0 from to f c s refl hf apart hc ∙ rw all

clear_row_loop_video :
    (n k row f c : ℕ) (s : Screen)
    → k + n ≡ width
    → row < height
    → c < width
    → (clear_row_loop n k row s).video f c ≡ (if (f == row) && leb k c then space else s.video f c)
unfolding clear_row_loop
clear_row_loop_video zero k row f c s e hr hc =
    let before : leb k c ≡ false = ground arith in rw before (ground arith)
clear_row_loop_video (suc n) k row f c s e hr hc =
    let valid : valid_position row k ≡ true = ground arith in
    ground (
      arith,
      clear_row_loop_video n (k + 1) row f c (clear_position row k s) (omega arith) hr hc,
      valid,
    )

pub clear_row_video :
    (row f c : ℕ) (s : Screen)
    → row < height
    → c < width
    → (clear_row row s).video f c ≡ (if f == row then space else s.video f c)
unfolding clear_row
clear_row_video row f c s hr hc =
    let all : leb 0 c ≡ true = ground arith in
    clear_row_loop_video width 0 row f c s refl hr hc
    ∙ rw all (elim (Bool-cases (f == row)) [ inl same ↦ rw same | inr other ↦ rw other ])

-- The rows from `auxf - 1` on take the row below, and the last row is blank.
scroll_loop_video :
    (n auxf f c : ℕ) (s : Screen)
    → auxf + n ≡ height
    → 0 < auxf
    → f < height
    → c < width
    → (scroll_loop n auxf s).video f c ≡ (
        if ltb (f + 1) auxf
        then s.video f c
        else if f == height - 1
        then (if n == 0 then s.video f c else space)
        else s.video (f + 1) c)
unfolding scroll_loop
scroll_loop_video zero auxf f c s e pos hf hc = ground arith
scroll_loop_video (suc n) auxf f c s e pos hf hc =
    scroll_loop_video n (auxf + 1) f c (copy_row auxf (auxf - 1) s) (omega arith) (omega arith) hf
      hc
    ∙ elim (Bool-cases (f + 1 == auxf)) [
      | inl here ↦
          let at : auxf ≡ f + 1 = ground arith in
          let below : ltb (f + 1) (auxf + 1) ≡ true = ground arith in
          let not_below : ltb (f + 1) auxf ≡ false = ground arith in
          let middle : (f == height - 1) ≡ false = ground arith in
          let target : (f == (auxf - 1)) ≡ true = ground arith in
          rw (below, not_below, middle) (copied f ∙ rw target (ap (λ (row : ℕ). s.video row c) at))
      | inr other ↦ elim (dec_lt (f + 1) auxf) [
        | yes before ↦
            let below : ltb (f + 1) (auxf + 1) ≡ true = ground arith in
            let below' : ltb (f + 1) auxf ≡ true = ground arith in
            let target : (f == (auxf - 1)) ≡ false = ground arith in
            let source : (f == auxf) ≡ false = ground arith in
            rw (below, below') (copied f ∙ rw (target, source))
        | no behind ↦
            let lt : auxf < f + 1 = ground arith in
            let not_below : ltb (f + 1) (auxf + 1) ≡ false = ground arith in
            let not_below' : ltb (f + 1) auxf ≡ false = ground arith in
            rw (not_below, not_below')
              (elim (Bool-cases (f == height - 1)) [
                | inl last ↦
                    rw (last, never)
                      (elim (Bool-cases (n == 0)) [
                        | inl done ↦
                            let target : (f == (auxf - 1)) ≡ false = ground arith in
                            let source : (f == auxf) ≡ true = ground arith in
                            rw done (copied f ∙ rw (target, source))
                        | inr more ↦ rw more
                      ])
                | inr middle ↦
                    let target : (f + 1 == (auxf - 1)) ≡ false = ground arith in
                    let source : (f + 1 == auxf) ≡ false = ground arith in
                    rw middle (copied (f + 1) ∙ rw (target, source))
              ])
      ]
    ]
  where
    never : (suc n == 0) ≡ false
    never = ground arith

    copied :
        (row : ℕ)
        → (copy_row auxf (auxf - 1) s).video row c ≡ (
            if row == auxf - 1
            then s.video auxf c
            else if row == auxf
            then space
            else s.video row c)
    copied row = copy_row_video auxf (auxf - 1) row c s (omega arith) (omega arith) hc

-- Scrolling moves every row of the module's region up by one and blanks the last row; the rows
-- above the region stay.
scroll_video :
    (f c : ℕ) (s : Screen)
    → s.j_start < height
    → f < height
    → c < width
    → (scroll s).video f c ≡ (
        if ltb f s.j_start
        then s.video f c
        else if f == height - 1
        then space
        else s.video (f + 1) c)
unfolding scroll clear_row
scroll_video f c s start hf hc =
    let all : leb 0 c ≡ true = ground arith in
    clear_row_loop_video width 0 (height - 1) f c
      (scroll_loop (height - (s.j_start + 1)) (s.j_start + 1) s) refl (omega arith) hc
    ∙ rw all (elim (Bool-cases (f == height - 1)) [
      | inl last ↦ let inside : ltb f s.j_start ≡ false = ground arith in rw (last, inside)
      | inr other ↦
          let shift : ltb (f + 1) (s.j_start + 1) ≡ ltb f s.j_start = ground arith in
          rw other (
            scroll_loop_video (height - (s.j_start + 1)) (s.j_start + 1) f c s (omega arith)
              (omega arith) hf hc
            ∙ rw (shift, other))
    ])
