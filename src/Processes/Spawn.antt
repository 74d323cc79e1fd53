-- ===== src/Processes/Spawn.antt =====
-- Kernel/process.c and Kernel/threads.c: how processes and threads begin and end. Stack frames lie
-- in a typed memory of their own.
use sistemas_operativos.Base.{
  ℕ, zero, suc, ◌+◌, ◌-◌, ◌*◌, ◌%◌, ◌^◌, Bool, false, if◌then◌else◌, ◌==◌, ◌||◌, ltb, update, neg,
  add32, sub32, Option, none, some,
}
use sistemas_operativos.Buddy.{alloc_page, number_of_pages_to_alloc, page_size}
use sistemas_operativos.Scheduler.{
  Sched, Process, Thread, ready, null, max_threads, get_current_process, add_process,
}
use sistemas_operativos.Heap.{Heap}
use sistemas_operativos.Processes.{on_buddy, on_sched, give_back, remove_process}

abbrev pub stack_frame_size : ℕ
stack_frame_size = 184

abbrev pub thread_size : ℕ
thread_size = 24

abbrev pub process_size : ℕ
process_size = 248

pub record StackFrame : Type 0 where
  pub gs : ℕ
  pub fs : ℕ
  pub r15 : ℕ
  pub r14 : ℕ
  pub r13 : ℕ
  pub r12 : ℕ
  pub r11 : ℕ
  pub r10 : ℕ
  pub r9 : ℕ
  pub r8 : ℕ
  pub rsi : ℕ
  pub rdi : ℕ
  pub rbp : ℕ
  pub rdx : ℕ
  pub rcx : ℕ
  pub rbx : ℕ
  pub rax : ℕ
  pub rip : ℕ
  pub cs : ℕ
  pub eflags : ℕ
  pub rsp : ℕ
  pub ss : ℕ
  pub base : ℕ

-- `call_process` is the address of `callProcess`, and `next_pid` the `pid` of process.c.
pub record Machine : Type 0 where
  pub heap : Heap
  pub frames : ℕ → StackFrame
  pub next_pid : ℕ
  pub call_process : ℕ

abbrev pub frame_of : ℕ → ℕ
frame_of user_stack = (user_stack + 2 ^ 64 - 2 * stack_frame_size) % 2 ^ 64

unfoldable pub fill_stack_frame : ℕ → ℕ → ℕ → Machine → ℕ × Machine
fill_stack_frame entry_point user_stack args w =
    let frame = frame_of user_stack in
    let filled : StackFrame = record {
      gs = 0x001;
      fs = 0x002;
      r15 = 0x003;
      r14 = 0x004;
      r13 = 0x005;
      r12 = 0x006;
      r11 = 0x007;
      r10 = 0x008;
      r9 = 0x009;
      r8 = 0x00A;
      rsi = entry_point;
      rdi = entry_point;
      rbp = 0x00D;
      rdx = args;
      rcx = args;
      rbx = 0x010;
      rax = 0x011;
      rip = w.call_process;
      cs = 0x008;
      eflags = 0x202;
      rsp = (frame + 22 * 8) % 2 ^ 64;
      ss = 0x000;
      base = (user_stack + 2 ^ 64 - 51 * stack_frame_size) % 2 ^ 64;
    } in
    (frame, record w { frames = update w.frames frame filled })

-- The loop of `findNextSpot`, with the rounds left.
unfoldable pub find_spot_loop : ℕ → ℕ → (ℕ → ℕ) → Option ℕ
find_spot_loop zero i t = none
find_spot_loop (suc n) i t =
    let rest = find_spot_loop n (i + 1) t in if t i == null then some i else rest

-- The place that `findNextSpot` finds is marked with the address 1; `none` is -1.
unfoldable pub find_next_spot : (ℕ → ℕ) → ℕ → Option (ℕ × (ℕ → ℕ))
unfolding find_spot_loop
find_next_spot t dim = elim (find_spot_loop dim 0 t) [
  | none ↦ none
  | some i ↦ some (i, update t i 1)
]

abbrev pub set_process_at : ℕ → Process → Machine → Machine
set_process_at a p w =
    let s = w.heap.sched in
    record w { heap = on_sched (record s { processes = update s.processes a p }) w.heap }

abbrev pub set_thread_at : ℕ → Thread → Machine → Machine
set_thread_at a t w =
    let s = w.heap.sched in
    record w { heap = on_sched (record s { threads = update s.threads a t }) w.heap }

-- Three calls of `allocPage`: for the thread and for its two stacks.
abbrev pub alloc_thread : Machine → (ℕ × ℕ × ℕ) × Machine
alloc_thread w =
    let (t, b₁) = alloc_page (number_of_pages_to_alloc thread_size) w.heap.sched.heap in
    let (page₁, b₂) = alloc_page 2 b₁ in
    let (page₂, b₃) = alloc_page 2 b₂ in ((t, page₁, page₂), record w { heap = on_buddy b₃ w.heap })

-- The process is given by its address.
unfoldable pub create_thread : ℕ → ℕ → ℕ → Machine → ℕ × Machine
unfolding fill_stack_frame find_next_spot
create_thread entry_point args a w =
    let ((t, page₁, page₂), w₁) = alloc_thread w in
    let kernel_stack = page₂ + 2 * page_size in
    let (stack, w₂) = fill_stack_frame entry_point (page₁ + 2 * page_size) args w₁ in
    let p = w₂.heap.sched.processes a in
    let thread : Thread = record {
      user_stack = stack;
      kernel_stack = kernel_stack;
      entry_point = entry_point;
    } in
    elim (find_next_spot p.thread 3) [
      | none ↦ (neg 1, w₂)
      | some (index, marked) ↦
          let p' : Process = record p {
            thread = update marked index t;
            number_of_threads = add32 p.number_of_threads 1;
          } in
          (0, set_thread_at t thread (set_process_at a p' w₂))
    ]

unfoldable pub thread_create : ℕ → ℕ → Machine → Machine
unfolding create_thread
thread_create entry_point args w =
    (create_thread entry_point args (get_current_process w.heap.sched) w).1

abbrev pub initialize_thread_array : (ℕ → ℕ) → ℕ → ℕ → ℕ
initialize_thread_array t dim i = if ltb i dim then null else t i

-- `getProcess` with the pages that it needs, without the description and the fields for pipes.
unfoldable pub begin_process : ℕ → ℕ → Machine → ℕ × Machine
unfolding create_thread
begin_process entry_point args w =
    let (a, b) = alloc_page (number_of_pages_to_alloc process_size) w.heap.sched.heap in
    let w₁ : Machine = record w { heap = on_buddy b w.heap } in
    let p = w₁.heap.sched.processes a in
    let empty : Process = record p {
      active_thread = 0;
      number_of_threads = 0;
      thread = initialize_thread_array p.thread max_threads;
    } in
    let w₂ = (create_thread entry_point args a (set_process_at a empty w₁)).1 in
    let begun : Process = record (w₂.heap.sched.processes a) { pid = w₂.next_pid; state = ready } in
    let w₃ = set_process_at a begun (record w₂ { next_pid = add32 w₂.next_pid 1 }) in
    let owner = w₃.heap.holders a in
    let holders = update w₃.heap.holders a (record owner { heap = null; pages_index = 0 }) in
    (a, record w₃ { heap = record w₃.heap { holders = holders } })

-- Whether one of the calls of `allocPage` in `getProcess` gives NULL.
abbrev pub lacks_pages : Machine → Bool
lacks_pages w =
    let (a, b) = alloc_page (number_of_pages_to_alloc process_size) w.heap.sched.heap in
    let ((t, page₁, page₂), w') = alloc_thread (record w { heap = on_buddy b w.heap }) in
    (a == null) || ((t == null) || ((page₁ == null) || (page₂ == null)))

-- `getProcess` does not test for NULL: `none` is that process, thread and frames would be written
-- over each other at 0, which a typed memory does not show.
unfoldable pub get_process : ℕ → ℕ → Machine → Option (ℕ × Machine)
unfolding begin_process
get_process entry_point args w =
    if lacks_pages w then none else some (begin_process entry_point args w)

-- The pid of the new process, once it is in the ring.
unfoldable pub create_process : ℕ → ℕ → Machine → Option (ℕ × Machine)
unfolding get_process
create_process entry_point args w = elim (get_process entry_point args w) [
  | none ↦ none
  | some (a, w') ↦
      let s = add_process a w'.heap.sched in
      let s' : Sched = record s { cardinal_processes = add32 s.cardinal_processes 1 } in
      some ((w'.heap.sched.processes a).pid, record w' { heap = on_sched s' w'.heap })
]

-- The three calls of `deallocPage`.
unfoldable pub free_thread_pages : ℕ → Heap → Option Heap
free_thread_pages t h = elim (give_back (h.sched.threads t).user_stack h) [
  | none ↦ none
  | some h₁ ↦ elim (give_back (h₁.sched.threads t).kernel_stack h₁) [
    | none ↦ none
    | some h₂ ↦ give_back t h₂
  ]
]

-- Whether `terminateThread` ends in a `_yield`, and what it leaves.
unfoldable pub terminate_thread : Machine → Option (Bool × Machine)
unfolding free_thread_pages
terminate_thread w =
    let a = get_current_process w.heap.sched in
    let p = w.heap.sched.processes a in
    let whole : Option (Bool × Machine) = elim (remove_process p.pid w.heap) [
      | none ↦ none
      | some (yields, h) ↦ some (yields, record w { heap = h })
    ] in
    let one : Option (Bool × Machine) = elim (free_thread_pages (p.thread p.active_thread) w.heap) [
      | none ↦ none
      | some h ↦
          let p' : Process = record p {
            thread = update p.thread p.active_thread null;
            number_of_threads = sub32 p.number_of_threads 1;
          } in
          some (false, set_process_at a p' (record w { heap = h }))
    ] in
    if p.active_thread == 0 then whole else one
