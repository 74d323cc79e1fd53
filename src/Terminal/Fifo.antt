-- ===== src/Terminal/Fifo.antt =====
-- Kernel/terminal.c as a queue of characters: what `put_terminal_buffer` and `get_terminal_buffer`
-- do to the characters that wait.
use sistemas_operativos.Base.{
  ℕ, zero, suc, ◌+◌, ◌<◌, ◌≡◌, ◌≢◌, refl, ap, true, arith, List, [], ◌∷◌, ◌++◌, take, drop,
  Bool-cases, inl, inr, get_or, ◌==◌, ◌||◌, ◌&&◌, set,
}
use sistemas_operativos.Base.Window.{
  window, span, span-IsAfter, window-set, bump, span-bump, span-bump_start, span-lt,
}
use sistemas_operativos.Terminal.{
  Terminal, cli, consume, put_terminal_buffer, get_loop, get_terminal_buffer,
}
use sistemas_operativos.Terminal.Bounds.{IsValid, consume-IsValid}

-- How many characters wait.
abbrev pub waiting : Terminal → ℕ
waiting t = span t.buffer_size t.buffer_consume t.buffer_position

-- The characters that wait, oldest first.
abbrev pub contents : Terminal → List ℕ
contents t = window t.buffer t.buffer_size t.buffer_consume (waiting t)

-- The slot before `buffer_consume`, except that the code misses the case where `buffer_consume`
-- stands at the start and `buffer_position` at the end.
abbrev pub IsLastSlot : Terminal → Type 0
IsLastSlot t = (t.buffer_consume ≡ 0) × (t.buffer_position + 1 ≡ t.buffer_size)

-- In a valid terminal with room, and unless `buffer_consume` stands at index 0 and
-- `buffer_position` at the last index, a character is appended to those that wait.
pub put_appends :
    (c : ℕ) {t : Terminal}
    → IsValid t
    → t.buffer_consume ≢ t.buffer_position + 1
    → ¬ IsLastSlot t
    → contents (put_terminal_buffer c t) ≡ contents t ++ (c ∷ [])
unfolding put_terminal_buffer
put_appends c {t} v room other =
    elim (Bool-cases (
      (buffer_consume == buffer_position + 1)
      || ((buffer_consume == buffer_size) && (buffer_position == 0)))) [
        | inl full ↦ absurd (ground arith)
        | inr room ↦
            rw
              (
                room,
                span-bump buffer_size buffer_consume buffer_position v.consume_in v.position_in
                    (ground arith),
              )
              (window-set buffer buffer_size c (waiting t) buffer_consume buffer_position v.storage
                v.consume_in v.position_in
                (span-lt buffer_size buffer_consume buffer_position v.consume_in v.position_in)
                (span-IsAfter buffer_size buffer_consume buffer_position v.consume_in))
      ]
  where
    open t use {buffer, buffer_consume, buffer_position, buffer_size}

-- With `buffer_consume` right behind `buffer_position` the character is dropped: what waits, the
-- stored bytes and the screen stay.
pub put_full :
    (c : ℕ) (t : Terminal)
    → t.buffer_consume ≡ t.buffer_position + 1
    → put_terminal_buffer c t ≡ record t { interrupts = true }
unfolding put_terminal_buffer
put_full c t full = ground arith

-- With `buffer_consume` at index 0 and `buffer_position` at the last index the buffer is full but
-- the test misses it: one more character, and nothing waits any more.
pub put_loses_all :
    (c : ℕ) {t : Terminal}
    → IsValid t
    → 1 < t.buffer_size
    → IsLastSlot t
    → (waiting t + 1 ≡ t.buffer_size) × (contents (put_terminal_buffer c t) ≡ [])
unfolding put_terminal_buffer
put_loses_all c {t} v two last =
    let e : span t.buffer_size t.buffer_consume (bump t.buffer_size t.buffer_position) ≡ 0 =
      ground arith in
    (
      ground arith,
      ground
          (arith, ap (window (set t.buffer t.buffer_position c) t.buffer_size t.buffer_consume) e),
    )

get_loop_lem :
    (n : ℕ) {t : Terminal}
    → IsValid t
    → ((get_loop n t).0 ≡ take n (contents t)) × (contents (get_loop n t).1 ≡ drop n (contents t))
unfolding get_loop
get_loop_lem zero v = (refl, refl)
get_loop_lem (suc n) {t} v =
    let ih = get_loop_lem n {t = consume (cli t)} (consume-IsValid v) in
    elim (Bool-cases (t.buffer_consume == t.buffer_position)) [
      | inl none_left ↦ let e : waiting t ≡ 0 = ground arith in rw (none_left, e) (refl, refl)
      | inr some_left ↦
          rw
            (
              some_left,
              span-bump_start t.buffer_size t.buffer_consume t.buffer_position v.consume_in
                  v.position_in (ground arith),
            )
            (ap (◌∷◌ (get_or t.buffer t.buffer_consume 0)) ih.0, ih.1)
    ]

-- A valid terminal hands out the oldest characters in order, as many as are asked for and wait,
-- and keeps the others.
pub get_refines :
    (n : ℕ) {t : Terminal}
    → IsValid t
    → ((get_terminal_buffer n t).0 ≡ take n (contents t))
      × (contents (get_terminal_buffer n t).1 ≡ drop n (contents t))
unfolding get_terminal_buffer
get_refines n v = get_loop_lem n (ground arith)
