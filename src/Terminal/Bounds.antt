-- ===== src/Terminal/Bounds.antt =====
-- Kernel/terminal.c: the indices stay inside `Buffer`, and interrupts are on again after each call.
use sistemas_operativos.Base.{
  ℕ, zero, suc, ◌≤◌, ◌<◌, ◌≡◌, refl, true, arith, length, length-set, List, [], ◌∷◌,
}
use sistemas_operativos.Terminal.{
  Terminal, cli, consume, put_terminal_buffer, get_loop, get_terminal_buffer, terminal_initialize,
  buffersize, Call, put, get, reset, on, off, step, run,
}

pub record IsValid (t : Terminal) : Type 0 where
  pub storage : t.buffer_size ≤ length t.buffer
  pub consume_in : t.buffer_consume < t.buffer_size
  pub position_in : t.buffer_position < t.buffer_size

-- Initialising a terminal over the static buffer makes it valid.
pub terminal_initialize-IsValid :
    (t : Terminal) → length t.buffer ≡ buffersize → IsValid (terminal_initialize t)
unfolding terminal_initialize
terminal_initialize-IsValid t h = omega arith

put-IsValid : (c : ℕ) {t : Terminal} → IsValid t → IsValid (put_terminal_buffer c t)
unfolding put_terminal_buffer
put-IsValid c {t} v = ground (arith, length-set t.buffer t.buffer_position c)

pub consume-IsValid : {t : Terminal} → IsValid t → IsValid (consume (cli t))
unfolding consume cli
consume-IsValid v = ground arith

get_loop-IsValid : (n : ℕ) {t : Terminal} → IsValid t → IsValid (get_loop n t).1
unfolding get_loop
get_loop-IsValid zero v = ground arith
get_loop-IsValid (suc n) {t} v =
    ground (arith, get_loop-IsValid n {t = consume (cli t)} (consume-IsValid v))

step-IsValid : (c : Call) {t : Terminal} → IsValid t → IsValid (step c t)
unfolding step get_terminal_buffer
step-IsValid (put c) v = put-IsValid c v
step-IsValid (get n) {t} v = get_loop-IsValid n {t = cli t} (ground arith)
step-IsValid reset v = omega arith
step-IsValid on v = omega arith
step-IsValid off v = omega arith

-- From a valid terminal, every sequence of calls leaves both indices inside the buffer.
run-IsValid : (cs : List Call) {t : Terminal} → IsValid t → IsValid (run cs t)
unfolding run
run-IsValid [] v = v
run-IsValid (c ∷ cs) v = run-IsValid cs (step-IsValid c v)

put-interrupts : (c : ℕ) (t : Terminal) → (put_terminal_buffer c t).interrupts ≡ true
unfolding put_terminal_buffer
put-interrupts c t = ground arith

get_loop-interrupts : (n : ℕ) (t : Terminal) → (get_loop n t).1.interrupts ≡ true
unfolding get_loop
get_loop-interrupts zero t = refl
get_loop-interrupts (suc n) t = ground (arith, get_loop-interrupts n (consume (cli t)))

-- Every sequence of calls that starts with interrupts enabled ends with them enabled, though the
-- tests for a full and an empty buffer disable them.
run-interrupts :
    (cs : List Call) (t : Terminal) → t.interrupts ≡ true → (run cs t).interrupts ≡ true
unfolding run step get_terminal_buffer
run-interrupts [] t h = h
run-interrupts (put c ∷ cs) t h = run-interrupts cs _ (put-interrupts c t)
run-interrupts (get n ∷ cs) t h = run-interrupts cs _ (get_loop-interrupts n (cli t))
run-interrupts (reset ∷ cs) t h = run-interrupts cs _ h
run-interrupts (on ∷ cs) t h = run-interrupts cs _ h
run-interrupts (off ∷ cs) t h = run-interrupts cs _ h
