-- ===== src/Processes/Tests.antt =====
-- Processes 5 and 6 with their threads, and the theorems there.
use sistemas_operativos.Base.{ℕ, ◌+◌, ◌≡◌, refl, arith, [], ◌∷◌, false, some, update}
use sistemas_operativos.Scheduler.{Sched, running, ready, process_of, max_threads}
use sistemas_operativos.Scheduler.Ring.{ring}
use sistemas_operativos.Scheduler.Tests.{pair}
use sistemas_operativos.Heap.{Heap}
use sistemas_operativos.Heap.Tests.{heap}
use sistemas_operativos.Processes.{remove_process, on_sched, next_thread}
use sistemas_operativos.Processes.Removal.{remove_process-ring}
use sistemas_operativos.Processes.Threads.{place, next_thread-nearest}
use sistemas_operativos.Processes.Spawn.{Machine, get_process}
use sistemas_operativos.Processes.Begin.{HasBegun, HasPages, AreSeparate, get_process-HasBegun}
use sistemas_operativos.Buddy.Tests.{fresh, fresh-IsReady, four_addresses}

abbrev two : Heap
two = on_sched (pair running ready) heap

remove_process-ring_example :
    (s : Sched) × (remove_process 6 two ≡ some (false, on_sched s two))
    × (ring s ≡ 0x100 ∷ [])
    × (s.current ≡ 0x100)
    × (s.cardinal_processes + 1 ≡ 2)
remove_process-ring_example =
    remove_process-ring 6 0x100 0x180 [] [] two (λ e. omega (arith, e)) (λ e. omega (arith, e))
      (omega arith) refl tt tt ((λ e. omega (arith, e)), tt) refl

-- Process 5 with its threads 0 and 2.
abbrev threads : ℕ → ℕ
threads = update (update (λ i. 0) 0 0x300) 2 0x400

abbrev threaded : Sched
threaded = record (pair running ready) {
  processes = λ a. record {
    pid = 5;
    state = running;
    active_thread = 0;
    number_of_threads = 2;
    thread = threads;
  };
}

next_thread-nearest_example :
    next_thread max_threads threaded ≡ some (place (process_of threaded 0x100) 2)
next_thread-nearest_example =
    next_thread-nearest 2 threaded (omega arith) (omega arith) (omega arith) (λ e. omega (arith, e))
      (λ j low lt. ground arith)

abbrev machine : Machine
machine = record {
  heap = on_sched (record (pair running ready) { heap = fresh }) heap;
  frames = λ a. record {
    gs = 0;
    fs = 0;
    r15 = 0;
    r14 = 0;
    r13 = 0;
    r12 = 0;
    r11 = 0;
    r10 = 0;
    r9 = 0;
    r8 = 0;
    rsi = 0;
    rdi = 0;
    rbp = 0;
    rdx = 0;
    rcx = 0;
    rbx = 0;
    rax = 0;
    rip = 0;
    cs = 0;
    eflags = 0;
    rsp = 0;
    ss = 0;
    base = 0;
  };
  next_pid = 7;
  call_process = 0x900;
}

fresh-HasPages : HasPages fresh
fresh-HasPages = record {
  process = omega (arith, four_addresses.0);
  thread = omega (arith, four_addresses.1);
  user = omega (arith, four_addresses.2);
  kernel = omega (arith, four_addresses.3);
  top = omega (arith, four_addresses.2);
}

get_process-HasBegun_example :
    (a : ℕ) × (w : Machine) × (get_process 0x5000 3 machine ≡ some (a, w))
    × AreSeparate fresh
    × HasBegun 0x5000 3 machine w a
get_process-HasBegun_example = get_process-HasBegun 0x5000 3 machine fresh-IsReady fresh-HasPages
