-- ===== src/SystemCalls/Programs.antt =====
-- Userland/dummy/stdio.c against Kernel/systemCalls.c: what a program asks for is what the kernel
-- does.
use mathlib.Core.Path.{subst}
use sistemas_operativos.Base.{ℕ, ◌^◌, ◌<◌, ◌≡◌, refl, ap, arith, Option, none, some}
use sistemas_operativos.SystemCalls.{syscall_handler, sys_calls}
use sistemas_operativos.SystemCalls.Library
use sistemas_operativos.SystemCalls.Services.{
  Request, print_processes, remove_process, lock_mutex, free_mutex, close_mutex, wait, signal,
  sem_close, sleep, mallock, get_mutex, sem_open, open_pipe, create_pipe, close_pipe, create_thread,
  sem_create, write, create_process, read, Served, zero_after, result_of, to_int, to_qword, handled,
}

-- The function of the library by which a program asks for it, where there is one.
abbrev pub asked : Request → Option Library.Registers
asked print_processes = some Library.print_processes
asked (remove_process pid) = some (Library.remove_process pid)
asked (lock_mutex mutex) = some (Library.lock_mutex mutex)
asked (free_mutex mutex) = some (Library.free_mutex mutex)
asked (wait semaphore) = some (Library.wait semaphore)
asked (signal semaphore) = some (Library.signal semaphore)
asked (sem_close index) = some (Library.sem_close index)
asked (sleep time) = some (Library.sleep time)
asked (mallock bytes) = some (Library.malloc bytes)
asked (get_mutex name) = some (Library.get_mutex name)
asked (sem_open name) = some (Library.sem_open name)
asked (sem_create name start) = some (Library.sem_create name start)
asked (create_process entry name args) = some (Library.create_process entry name args)
asked other = none

-- The numbers handed over are `int`s, and a size fits one.
abbrev pub IsPassed : Request → Type 0
IsPassed (remove_process pid) = pid < 2 ^ 32
IsPassed (lock_mutex mutex) = mutex < 2 ^ 32
IsPassed (free_mutex mutex) = mutex < 2 ^ 32
IsPassed (wait semaphore) = semaphore < 2 ^ 32
IsPassed (signal semaphore) = semaphore < 2 ^ 32
IsPassed (sem_close index) = index < 2 ^ 32
IsPassed (sleep time) = time < 2 ^ 32
IsPassed (mallock bytes) = bytes < 2 ^ 32
IsPassed (sem_create name start) = start < 2 ^ 32
IsPassed other = Unit

-- What comes back: the kernel's result, or 0 from a function without one.
abbrev pub answer : Request → Served
answer (sem_open name) = result_of (sem_open name)
answer (sem_create name start) = result_of (sem_create name start)
answer (get_mutex name) = result_of (get_mutex name)
answer (mallock bytes) = result_of (mallock bytes)
answer (create_process entry name args) = result_of (create_process entry name args)
answer other = zero_after other

to_int-to_qword : (n : ℕ) → n < 2 ^ 32 → to_int (to_qword n) ≡ n
to_int-to_qword n lt = ground arith

abbrev Serves : Request → Option Library.Registers → Type 0
Serves r none = Unit
Serves r (some registers) = handled registers ≡ some (answer r)

handled-Serves : (r : Request) → IsPassed r → Serves r (asked r)
unfolding handled syscall_handler sys_calls
handled-Serves print_processes h = refl
handled-Serves (remove_process pid) h =
    ap (λ n. some (zero_after (remove_process n))) (to_int-to_qword pid h)
handled-Serves (lock_mutex mutex) h =
    ap (λ n. some (zero_after (lock_mutex n))) (to_int-to_qword mutex h)
handled-Serves (free_mutex mutex) h =
    ap (λ n. some (zero_after (free_mutex n))) (to_int-to_qword mutex h)
handled-Serves (wait semaphore) h =
    ap (λ n. some (zero_after (wait n))) (to_int-to_qword semaphore h)
handled-Serves (signal semaphore) h =
    ap (λ n. some (zero_after (signal n))) (to_int-to_qword semaphore h)
handled-Serves (sem_close index) h =
    ap (λ n. some (zero_after (sem_close n))) (to_int-to_qword index h)
handled-Serves (sleep time) h = ap (λ n. some (zero_after (sleep n))) (to_int-to_qword time h)
handled-Serves (mallock bytes) h =
    let e : to_int bytes ≡ bytes = omega (arith, h) in ap (λ n. some (result_of (mallock n))) e
handled-Serves (get_mutex name) h = refl
handled-Serves (sem_open name) h = refl
handled-Serves (sem_create name start) h =
    ap (λ n. some (result_of (sem_create name n))) (to_int-to_qword start h)
handled-Serves (create_process entry name args) h = refl
handled-Serves (close_mutex index) h = tt
handled-Serves (open_pipe name) h = tt
handled-Serves (create_pipe name) h = tt
handled-Serves (close_pipe pipe) h = tt
handled-Serves (create_thread entry args) h = tt
handled-Serves (write pipe message) h = tt
handled-Serves (read pipe result bytes) h = tt

-- A function of the library that a program calls makes the kernel call the function of that name
-- with the same arguments, for every `int`, negative ones included, and for sizes below 2 ^ 32, and
-- it returns what that function returns, or 0 if it has no result.
pub handled-asked :
    (r : Request) (registers : Library.Registers)
    → asked r ≡ some registers
    → IsPassed r
    → handled registers ≡ some (answer r)
handled-asked r registers e h = subst (λ o. Serves r o) e (handled-Serves r h)
