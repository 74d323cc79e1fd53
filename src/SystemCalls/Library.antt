-- ===== src/SystemCalls/Library.antt =====
-- Userland/dummy/stdio.c: the functions by which a program makes a system call, as what `sys_call`
-- has in rdi, rsi, rdx and rcx.
use sistemas_operativos.Base.{ℕ}
use sistemas_operativos.SystemCalls.Services.{to_qword}

abbrev pub Registers : Type 0
Registers = ℕ × ℕ × ℕ × ℕ

abbrev pub print_processes : Registers
print_processes = (10, 0, 0, 0)

abbrev pub remove_process : ℕ → Registers
remove_process pid = (11, to_qword pid, 0, 0)

abbrev pub lock_mutex : ℕ → Registers
lock_mutex mut = (20, to_qword mut, 0, 0)

abbrev pub free_mutex : ℕ → Registers
free_mutex mut = (21, to_qword mut, 0, 0)

abbrev pub get_mutex : ℕ → Registers
get_mutex name = (19, name, 0, 0)

abbrev pub create_process : ℕ → ℕ → ℕ → Registers
create_process entry name args = (23, entry, name, args)

abbrev pub wait : ℕ → Registers
wait semaphore = (25, to_qword semaphore, 0, 0)

abbrev pub signal : ℕ → Registers
signal semaphore = (15, to_qword semaphore, 0, 0)

abbrev pub sem_open : ℕ → Registers
sem_open name = (16, name, 0, 0)

abbrev pub sem_create : ℕ → ℕ → Registers
sem_create name start = (17, name, to_qword start, 0)

abbrev pub sem_close : ℕ → Registers
sem_close index = (18, to_qword index, 0, 0)

abbrev pub sleep : ℕ → Registers
sleep time = (24, to_qword time, 0, 0)

-- `bytes` is a `long`, which fills a `qword`.
abbrev pub malloc : ℕ → Registers
malloc bytes = (13, bytes, 0, 0)
