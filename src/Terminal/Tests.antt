-- ===== src/Terminal/Tests.antt =====
-- Runs of the terminal buffer, and its theorems at concrete buffers.
use sistemas_operativos.Base.{ℕ, ◌+◌, ◌≡◌, refl, arith, List, [], ◌∷◌, ◌++◌, true, replicate}
use sistemas_operativos.Terminal.{
  Terminal, put_terminal_buffer, get_terminal_buffer, terminal_initialize, buffersize,
}
use sistemas_operativos.Terminal.Bounds.{IsValid, terminal_initialize-IsValid}
use sistemas_operativos.Terminal.Fifo.{
  waiting, contents, put_appends, put_full, put_loses_all, get_refines,
}

abbrev pub small : ℕ → ℕ → List ℕ → Terminal
small from to bytes = record {
  buffer = bytes;
  buffer_consume = from;
  buffer_position = to;
  buffer_size = 4;
  is_echo = 1;
  interrupts = true;
  screen = [];
}

-- 8 and 9 wait, round the end of the buffer.
abbrev pub wrapped : Terminal
wrapped = small 3 1 (9 ∷ 7 ∷ 7 ∷ 8 ∷ [])

abbrev at_end : Terminal
at_end = small 0 3 (5 ∷ 6 ∷ 7 ∷ 0 ∷ [])

abbrev static : Terminal
static = record {
  buffer = replicate buffersize 0;
  buffer_consume = 9;
  buffer_position = 9;
  buffer_size = 0;
  is_echo = 0;
  interrupts = true;
  screen = [];
}

read_back : (get_terminal_buffer 3 (put_terminal_buffer 65 wrapped)).0 ≡ 8 ∷ 9 ∷ 65 ∷ []
unfolding get_terminal_buffer put_terminal_buffer
read_back = refl

lost : (get_terminal_buffer 4 (put_terminal_buffer 65 at_end)).0 ≡ []
unfolding get_terminal_buffer put_terminal_buffer
lost = refl

terminal_initialize-IsValid_example : IsValid (terminal_initialize static)
terminal_initialize-IsValid_example = terminal_initialize-IsValid static refl

put_appends_example : contents (put_terminal_buffer 65 wrapped) ≡ (8 ∷ 9 ∷ []) ++ (65 ∷ [])
put_appends_example =
    put_appends 65 {t = wrapped} (omega arith) (omega arith) (λ h. omega (arith, h.0))

put_full_example :
    put_terminal_buffer 65 (small 2 1 (1 ∷ 2 ∷ 3 ∷ 4 ∷ [])) ≡ small 2 1 (1 ∷ 2 ∷ 3 ∷ 4 ∷ [])
put_full_example = put_full 65 (small 2 1 (1 ∷ 2 ∷ 3 ∷ 4 ∷ [])) refl

put_loses_all_example : (waiting at_end + 1 ≡ 4) × (contents (put_terminal_buffer 65 at_end) ≡ [])
put_loses_all_example = put_loses_all 65 {t = at_end} (omega arith) (omega arith) (omega arith)

get_refines_example :
    ((get_terminal_buffer 1 wrapped).0 ≡ 8 ∷ [])
    × (contents (get_terminal_buffer 1 wrapped).1 ≡ 9 ∷ [])
get_refines_example = get_refines 1 {t = wrapped} (omega arith)
