-- ===== src/Terminal.antt =====
-- Kernel/terminal.c: the keyboard buffer between the interrupt handler and the readers. A pointer
-- into `Buffer` is its index, so `bufferStart` is 0. What the code sends to video.c is recorded in
-- `screen`, newest first.
pub mod Bounds
pub mod Fifo
pub mod Tests
use sistemas_operativos.Base.{
  ℕ, zero, suc, ◌+◌, List, [], ◌∷◌, Bool, true, false, ◌&&◌, ◌||◌, if◌then◌else◌, ◌==◌, get_or, set,
  replicate,
}
use sistemas_operativos.Base.Window.{bump}

-- The calls of video.c that the terminal makes.
pub data Echo : Type 0 where
  back_in_line line_jump : Echo
  put_char : ℕ → Echo

pub record Terminal : Type 0 where
  pub buffer : List ℕ
  pub buffer_consume : ℕ
  pub buffer_position : ℕ
  pub buffer_size : ℕ
  pub is_echo : ℕ
  pub interrupts : Bool
  pub screen : List Echo

abbrev pub buffersize : ℕ
buffersize = 2500

abbrev pub backspace : ℕ
backspace = 8

abbrev pub newline : ℕ
newline = 10

abbrev pub space : ℕ
space = 32

pub cli : Terminal → Terminal
cli t = record t { interrupts = false }

sti : Terminal → Terminal
sti t = record t { interrupts = true }

-- The `sti` behind the `return` is never reached.
pub is_buffer_full : Terminal → Bool × Terminal
unfolding cli
is_buffer_full t = (
  (t.buffer_consume == t.buffer_position + 1)
      || ((t.buffer_consume == t.buffer_size) && (t.buffer_position == 0)),
  cli t,
)

pub is_buffer_empty : Terminal → Bool × Terminal
unfolding cli
is_buffer_empty t = (t.buffer_consume == t.buffer_position, cli t)

pub echo_on : Terminal → Terminal
echo_on t = record t { is_echo = 1 }

pub echo_of : Terminal → Terminal
echo_of t = record t { is_echo = 0 }

pub terminal_initialize : Terminal → Terminal
terminal_initialize t = record t {
  buffer_consume = 0;
  buffer_position = 0;
  buffer_size = buffersize;
  is_echo = 1;
}

send : Terminal → List Echo → Terminal
send t es = record t { screen = es }

-- What a character shows on the screen; only plain characters depend on the echo flag.
pub echo : ℕ → Terminal → List Echo
echo c t =
    if c == backspace
    then back_in_line ∷ put_char space ∷ back_in_line ∷ t.screen
    else if c == newline
    then line_jump ∷ t.screen
    else if t.is_echo == 0
    then t.screen
    else put_char c ∷ t.screen

store : ℕ → Terminal → Terminal
unfolding echo
store c t = record t {
  buffer = set t.buffer t.buffer_position c;
  screen = echo c t;
  buffer_position = bump t.buffer_size t.buffer_position;
}

pub put_terminal_buffer : ℕ → Terminal → Terminal
unfolding is_buffer_full cli sti store
put_terminal_buffer c t =
    let (full, t') = is_buffer_full t in if full then sti t' else sti (store c (cli t'))

pub consume : Terminal → Terminal
consume t = record t { buffer_consume = bump t.buffer_size t.buffer_consume }

-- The rounds of the loop, `length` of them left; the list is what goes to the caller's buffer.
pub get_loop : ℕ → Terminal → List ℕ × Terminal
unfolding is_buffer_empty cli sti consume
get_loop zero t = ([], sti t)
get_loop (suc length) t =
    let (empty, t') = is_buffer_empty t in
    let rest = get_loop length (consume t') in
    if empty then ([], sti t') else (get_or t'.buffer t'.buffer_consume 0 ∷ rest.0, rest.1)

pub get_terminal_buffer : ℕ → Terminal → List ℕ × Terminal
unfolding get_loop cli
get_terminal_buffer length t = get_loop length (cli t)

pub reset_buffer : Terminal → Terminal
reset_buffer t = record t { buffer_position = 0; buffer_consume = 0 }

-- What the interrupt handler and the system calls ask of the terminal.
pub data Call : Type 0 where
  put get : ℕ → Call
  reset on off : Call

pub step : Call → Terminal → Terminal
unfolding echo_on echo_of reset_buffer
step (put c) t = put_terminal_buffer c t
step (get n) t = (get_terminal_buffer n t).1
step reset t = reset_buffer t
step on t = echo_on t
step off t = echo_of t

pub run : List Call → Terminal → Terminal
run [] t = t
run (c ∷ cs) t = run cs (step c t)
