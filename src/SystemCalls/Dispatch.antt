-- ===== src/SystemCalls/Dispatch.antt =====
-- Kernel/systemCalls.c: which number makes which call.
use sistemas_operativos.Base.{ℕ, zero, suc, ◌+◌, ◌≤◌, ◌<◌, ◌≡◌, refl, arith, ltb, false}
use sistemas_operativos.SystemCalls.{
  SysCall, read_c, write_c, clear_c, echo_c, run_c, change_module_environmet, undo_backwards,
  print_processes, kill, create_thread, mallock, get_address_of_module, signal, sem_open,
  sem_create, sem_close, get_mutex, lock_mutex, free_mutex, close_mutex, create_process, sleep,
  wait, open_pipe, create_pipe, close_pipe, read, write, sys_calls, syscall_handler, calls,
  calls_null, returns_zero, system_call_count,
}

-- The numbers of the calls, as the programs know them.
abbrev pub number_of : SysCall → ℕ
number_of read_c = 3
number_of write_c = 4
number_of clear_c = 5
number_of echo_c = 6
number_of run_c = 7
number_of change_module_environmet = 8
number_of undo_backwards = 9
number_of print_processes = 10
number_of kill = 11
number_of create_thread = 12
number_of mallock = 13
number_of get_address_of_module = 14
number_of signal = 15
number_of sem_open = 16
number_of sem_create = 17
number_of sem_close = 18
number_of get_mutex = 19
number_of lock_mutex = 20
number_of free_mutex = 21
number_of close_mutex = 22
number_of create_process = 23
number_of sleep = 24
number_of wait = 25
number_of open_pipe = 26
number_of create_pipe = 27
number_of close_pipe = 28
number_of read = 29
number_of write = 30

syscall_handler-number_of : (call : SysCall) → syscall_handler (number_of call) ≡ calls call
unfolding syscall_handler sys_calls
syscall_handler-number_of read_c = refl
syscall_handler-number_of write_c = refl
syscall_handler-number_of clear_c = refl
syscall_handler-number_of echo_c = refl
syscall_handler-number_of run_c = refl
syscall_handler-number_of change_module_environmet = refl
syscall_handler-number_of undo_backwards = refl
syscall_handler-number_of print_processes = refl
syscall_handler-number_of kill = refl
syscall_handler-number_of create_thread = refl
syscall_handler-number_of mallock = refl
syscall_handler-number_of get_address_of_module = refl
syscall_handler-number_of signal = refl
syscall_handler-number_of sem_open = refl
syscall_handler-number_of sem_create = refl
syscall_handler-number_of sem_close = refl
syscall_handler-number_of get_mutex = refl
syscall_handler-number_of lock_mutex = refl
syscall_handler-number_of free_mutex = refl
syscall_handler-number_of close_mutex = refl
syscall_handler-number_of create_process = refl
syscall_handler-number_of sleep = refl
syscall_handler-number_of wait = refl
syscall_handler-number_of open_pipe = refl
syscall_handler-number_of create_pipe = refl
syscall_handler-number_of close_pipe = refl
syscall_handler-number_of read = refl
syscall_handler-number_of write = refl

low_null : (n : ℕ) → n < 3 → syscall_handler n ≡ calls_null
unfolding syscall_handler sys_calls
low_null zero h = refl
low_null (suc zero) h = refl
low_null (suc (suc zero)) h = refl
low_null (suc (suc (suc n))) h = absurd (omega arith)

high_null : (k : ℕ) → k < 4 → syscall_handler (31 + k) ≡ calls_null
unfolding syscall_handler sys_calls
high_null zero h = refl
high_null (suc zero) h = refl
high_null (suc (suc zero)) h = refl
high_null (suc (suc (suc zero))) h = refl
high_null (suc (suc (suc (suc k)))) h = absurd (omega arith)

beyond_zero : (n : ℕ) → system_call_count ≤ n → syscall_handler n ≡ returns_zero
unfolding syscall_handler
beyond_zero n h = let outside : ltb n system_call_count ≡ false = ground arith in rw outside

-- Under its number `syscallHandler` makes every system call; it returns 0 for a number beyond the
-- table, and calls through NULL for the numbers 0 to 2 and 31 to 34.
syscall_handler_lem :
    ((call : SysCall) → syscall_handler (number_of call) ≡ calls call)
    × ((n : ℕ) → system_call_count ≤ n → syscall_handler n ≡ returns_zero)
    × ((n : ℕ) → n < 3 → syscall_handler n ≡ calls_null)
    × ((k : ℕ) → k < 4 → syscall_handler (31 + k) ≡ calls_null)
syscall_handler_lem = (syscall_handler-number_of, beyond_zero, low_null, high_null)
