-- ===== src/SystemCalls/Services.antt =====
-- Kernel/systemCalls.c: the calls that hand their arguments on to a function of the kernel. A `qword` is a number below 2 ^ 64, an
-- `int` its pattern below 2 ^ 32.
use sistemas_operativos.Base.{
  ℕ, ◌+◌, ◌-◌, ◌%◌, ◌^◌, if◌then◌else◌, non_negative, Option, none, some,
}
use sistemas_operativos.SystemCalls.{SysCall, calls, returns_zero, calls_null, syscall_handler}

-- The calls of functions of the kernel, with their arguments; `create_thread` is called for the
-- current process.
pub data Request : Type 0 where
  print_processes : Request
  remove_process lock_mutex free_mutex close_mutex wait signal sem_close sleep : ℕ → Request
  mallock get_mutex sem_open open_pipe create_pipe close_pipe : ℕ → Request
  create_thread sem_create write : ℕ → ℕ → Request
  create_process read : ℕ → ℕ → ℕ → Request

-- What the system call returns: 0, or what the function returns.
pub data Served : Type 0 where
  zero_after result_of : Request → Served

-- `qword` to `int` or `size_t`, which has 32 bits in Kernel/include/types.h, and `int` to `qword`.
abbrev pub to_int : ℕ → ℕ
to_int q = q % 2 ^ 32

abbrev pub to_qword : ℕ → ℕ
to_qword n = if non_negative n then n else n + (2 ^ 64 - 2 ^ 32)

abbrev pub sys_call_print_processes : Served
sys_call_print_processes = zero_after print_processes

abbrev pub sys_call_kill : ℕ → Served
sys_call_kill pid = zero_after (remove_process (to_int pid))

abbrev pub sys_call_create_thread : ℕ → ℕ → Served
sys_call_create_thread entry_point args = zero_after (create_thread entry_point args)

abbrev pub sys_call_mallock : ℕ → Served
sys_call_mallock number_of_bytes = result_of (mallock (to_int number_of_bytes))

abbrev pub sys_call_create_process : ℕ → ℕ → ℕ → Served
sys_call_create_process entry_point description param =
    result_of (create_process entry_point description param)

abbrev pub sys_call_sleep : ℕ → Served
sys_call_sleep time = zero_after (sleep (to_int time))

abbrev pub sys_call_wait : ℕ → Served
sys_call_wait semaphore = zero_after (wait (to_int semaphore))

abbrev pub sys_call_signal : ℕ → Served
sys_call_signal semaphore = zero_after (signal (to_int semaphore))

abbrev pub sys_call_sem_open : ℕ → Served
sys_call_sem_open name = result_of (sem_open name)

abbrev pub sys_call_sem_create : ℕ → ℕ → Served
sys_call_sem_create name start = result_of (sem_create name (to_int start))

abbrev pub sys_call_sem_close : ℕ → Served
sys_call_sem_close index = zero_after (sem_close (to_int index))

abbrev pub sys_call_get_mutex : ℕ → Served
sys_call_get_mutex mutex_name = result_of (get_mutex mutex_name)

abbrev pub sys_call_lock_mutex : ℕ → Served
sys_call_lock_mutex mutex = zero_after (lock_mutex (to_int mutex))

abbrev pub sys_call_free_mutex : ℕ → Served
sys_call_free_mutex mutex = zero_after (free_mutex (to_int mutex))

abbrev pub sys_call_close_mutex : ℕ → Served
sys_call_close_mutex index = zero_after (close_mutex (to_int index))

abbrev pub sys_call_open_pipe : ℕ → Served
sys_call_open_pipe name = result_of (open_pipe name)

abbrev pub sys_call_create_pipe : ℕ → Served
sys_call_create_pipe name = result_of (create_pipe name)

abbrev pub sys_call_close_pipe : ℕ → Served
sys_call_close_pipe pipe = zero_after (close_pipe pipe)

abbrev pub sys_call_read_pipe : ℕ → ℕ → ℕ → Served
sys_call_read_pipe pipe result bytes = result_of (read pipe result (to_int bytes))

abbrev pub sys_call_write_pipe : ℕ → ℕ → Served
sys_call_write_pipe pipe message = result_of (write pipe message)

-- `none` for the calls on the screen, the terminal and the modules.
abbrev pub serve : SysCall → ℕ → ℕ → ℕ → Option Served
serve SysCall.print_processes rsi rdx rcx = some sys_call_print_processes
serve SysCall.kill rsi rdx rcx = some (sys_call_kill rsi)
serve SysCall.create_thread rsi rdx rcx = some (sys_call_create_thread rsi rdx)
serve SysCall.mallock rsi rdx rcx = some (sys_call_mallock rsi)
serve SysCall.create_process rsi rdx rcx = some (sys_call_create_process rsi rdx rcx)
serve SysCall.sleep rsi rdx rcx = some (sys_call_sleep rsi)
serve SysCall.wait rsi rdx rcx = some (sys_call_wait rsi)
serve SysCall.signal rsi rdx rcx = some (sys_call_signal rsi)
serve SysCall.sem_open rsi rdx rcx = some (sys_call_sem_open rsi)
serve SysCall.sem_create rsi rdx rcx = some (sys_call_sem_create rsi rdx)
serve SysCall.sem_close rsi rdx rcx = some (sys_call_sem_close rsi)
serve SysCall.get_mutex rsi rdx rcx = some (sys_call_get_mutex rsi)
serve SysCall.lock_mutex rsi rdx rcx = some (sys_call_lock_mutex rsi)
serve SysCall.free_mutex rsi rdx rcx = some (sys_call_free_mutex rsi)
serve SysCall.close_mutex rsi rdx rcx = some (sys_call_close_mutex rsi)
serve SysCall.open_pipe rsi rdx rcx = some (sys_call_open_pipe rsi)
serve SysCall.create_pipe rsi rdx rcx = some (sys_call_create_pipe rsi)
serve SysCall.close_pipe rsi rdx rcx = some (sys_call_close_pipe rsi)
serve SysCall.read rsi rdx rcx = some (sys_call_read_pipe rsi rdx rcx)
serve SysCall.write rsi rdx rcx = some (sys_call_write_pipe rsi rdx)
serve other rsi rdx rcx = none

-- What `syscallHandler` makes of its registers.
unfoldable pub handled : ℕ × ℕ × ℕ × ℕ → Option Served
unfolding syscall_handler
handled (rdi, rsi, rdx, rcx) = elim (syscall_handler rdi) [
  | calls call ↦ serve call rsi rdx rcx
  | calls_null ↦ none
  | returns_zero ↦ none
]
