-- ===== src/SystemCalls.antt =====
-- Kernel/systemCalls.c: the calls that write, read and set the screen and the terminal, and the
-- table by which `syscallHandler` finds every call.
pub mod Write
pub mod Dispatch
pub mod Services
pub mod Library
pub mod Programs
pub mod Tests
use sistemas_operativos.Base.{
  ℕ, zero, suc, ◌+◌, ◌-◌, ◌^◌, List, [], ◌∷◌, Bool, true, false, if◌then◌else◌, ◌==◌, ltb, get_or,
  Option, none, some,
}
use sistemas_operativos.Terminal.{Terminal, get_terminal_buffer, echo_on, echo_of}
use sistemas_operativos.Screen.{
  Screen, put_char, line_jump, clear_row, set_cursor, change_start_module, change_stop_backwards,
}

abbrev pub newline : ℕ
newline = 10

-- The loop of `sys_call_writeC` over the characters that are left; `rounds` is the fuel of
-- `lineJump`.
pub write_loop : ℕ → List ℕ → Screen → Option Screen
write_loop rounds [] s = some s
write_loop rounds (c ∷ msg) s =
    let jumped : Option Screen = elim (line_jump rounds s) [
      | none ↦ none
      | some s' ↦ write_loop rounds msg s'
    ] in
    let put = write_loop rounds msg (put_char c s) in if c == newline then jumped else put

-- The text is as many characters as the length says.
unfoldable pub sys_call_write : ℕ → ℕ → List ℕ → Screen → Option Screen
unfolding write_loop
sys_call_write rounds stdout msg s = if stdout == 0 then write_loop rounds msg s else some s

unfoldable pub sys_call_read : ℕ → ℕ → Terminal → List ℕ × Terminal
sys_call_read stdin length t = if stdin == 0 then get_terminal_buffer length t else ([], t)

-- The loop of `sys_call_clearC`, from row `i` down to row 3.
pub clear_loop : ℕ → ℕ → Screen → Screen
clear_loop zero i s = s
clear_loop (suc n) i s = clear_loop n (i - 1) (clear_row i s)

unfoldable pub sys_call_clear : Screen → Screen
unfolding clear_loop
sys_call_clear s = set_cursor 3 0 (clear_loop 23 25 s)

unfoldable pub sys_call_echo : ℕ → Terminal → Terminal
sys_call_echo on t = if on == 0 then echo_of t else echo_on t

unfoldable pub sys_call_change_module_environmet : ℕ → ℕ → Screen → Screen
sys_call_change_module_environmet i j s = change_start_module i j s

unfoldable pub sys_call_undo_backwards : ℕ → Screen → Screen
sys_call_undo_backwards from s = change_stop_backwards from s

-- `unset` is what lies in the variable for a program without a case.
unfoldable pub sys_call_get_address_of_module : ℕ → ℕ → ℕ
sys_call_get_address_of_module unset program =
    if program == 1
    then 0xA00000
    else if program == 2
    then 0xE00000
    else if program == 3
    then 0x600000
    else if program == 4
    then 0xC00000
    else unset

abbrev pub system_call_count : ℕ
system_call_count = 35

pub data SysCall : Type 0 where
  read_c write_c clear_c echo_c run_c change_module_environmet undo_backwards print_processes :
      SysCall
  kill create_thread mallock get_address_of_module signal sem_open sem_create sem_close : SysCall
  get_mutex lock_mutex free_mutex close_mutex create_process sleep wait : SysCall
  open_pipe create_pipe close_pipe read write : SysCall

-- What `setUpSystemCalls` leaves in `sysCalls`, in the order of the numbers; the others are NULL.
unfoldable pub sys_calls : List (Option SysCall)
sys_calls =
    none
    ∷ none
    ∷ none
    ∷ some read_c
    ∷ some write_c
    ∷ some clear_c
    ∷ some echo_c
    ∷ some run_c
    ∷ some change_module_environmet
    ∷ some undo_backwards
    ∷ some print_processes
    ∷ some kill
    ∷ some create_thread
    ∷ some mallock
    ∷ some get_address_of_module
    ∷ some signal
    ∷ some sem_open
    ∷ some sem_create
    ∷ some sem_close
    ∷ some get_mutex
    ∷ some lock_mutex
    ∷ some free_mutex
    ∷ some close_mutex
    ∷ some create_process
    ∷ some sleep
    ∷ some wait
    ∷ some open_pipe
    ∷ some create_pipe
    ∷ some close_pipe
    ∷ some read
    ∷ some write
    ∷ none
    ∷ none
    ∷ none
    ∷ none
    ∷ []

-- What `syscallHandler` does with a number: it returns 0, makes a call, or calls through NULL.
pub data Dispatched : Type 0 where
  returns_zero calls_null : Dispatched
  calls : SysCall → Dispatched

unfoldable pub syscall_handler : ℕ → Dispatched
unfolding sys_calls
syscall_handler rdi =
    let called : Dispatched = elim (get_or sys_calls rdi none) [
      | none ↦ calls_null
      | some call ↦ calls call
    ] in
    if ltb rdi system_call_count then called else returns_zero
