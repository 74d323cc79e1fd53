-- ===== src/Processes/Begin.antt =====
-- Kernel/process.c and Kernel/threads.c: what a new process is, and what happens without a place
-- for a thread.
use sistemas_operativos.Base.{
  ℕ, ◌+◌, ◌-◌, ◌*◌, ◌^◌, ◌≤◌, ◌<◌, ◌≡◌, ◌≢◌, refl, arith, ==_ne, neg, add32, none, some, false,
}
use sistemas_operativos.Buddy.{Buddy, alloc_page, page_size}
use sistemas_operativos.Buddy.Alloc.{Block, IsReady, alloc_page-IsReady}
use sistemas_operativos.Buddy.Requests.{
  Disjoint, Block-Disjoint, alloc_page-granted, alloc_page-keeps,
}
use sistemas_operativos.Scheduler.{ready, null, max_threads}
use sistemas_operativos.Processes.Spawn.{
  Machine, get_process, begin_process, lacks_pages, create_thread, fill_stack_frame, find_next_spot,
  find_spot_loop, alloc_thread, stack_frame_size, frame_of,
}

-- The page areas after the calls of `allocPage` for the process, the thread and the user's stack.
abbrev pub with_process : Buddy → Buddy
with_process b = (alloc_page 1 b).1

abbrev pub with_thread : Buddy → Buddy
with_thread b = (alloc_page 1 (with_process b)).1

abbrev pub with_stack : Buddy → Buddy
with_stack b = (alloc_page 2 (with_thread b)).1

-- None of the four calls of `allocPage` gets NULL, and the address behind the user's stack is one.
pub record HasPages (b : Buddy) : Type 0 where
  pub process : 0 < (alloc_page 1 b).0
  pub thread : 0 < (alloc_page 1 (with_process b)).0
  pub user : 0 < (alloc_page 2 (with_thread b)).0
  pub kernel : 0 < (alloc_page 2 (with_stack b)).0
  pub top : (alloc_page 2 (with_thread b)).0 + 2 * page_size < 2 ^ 64

-- The process, its thread and the two stacks have blocks of pages, and no page belongs to two.
pub record AreSeparate (b : Buddy) : Type 0 where
  process : Block 1 b (with_process b) (alloc_page 1 b).0
  thread : Block 1 (with_process b) (with_thread b) (alloc_page 1 (with_process b)).0
  user : Block 2 (with_thread b) (with_stack b) (alloc_page 2 (with_thread b)).0
  kernel : Block 2 (with_stack b) (alloc_page 2 (with_stack b)).1 (alloc_page 2 (with_stack b)).0
  process_thread : Disjoint process.taken thread.taken
  process_user : Disjoint process.taken user.taken
  process_kernel : Disjoint process.taken kernel.taken
  thread_user : Disjoint thread.taken user.taken
  thread_kernel : Disjoint thread.taken kernel.taken
  user_kernel : Disjoint user.taken kernel.taken

pages-AreSeparate : (b : Buddy) → IsReady b → HasPages b → AreSeparate b
pages-AreSeparate b r has = record {
  process = one;
  thread = two;
  user = three;
  kernel = four;
  process_thread = Block-Disjoint two one.taken one.in_tree one.full;
  process_user = Block-Disjoint three one.taken one.in_tree one₂;
  process_kernel =
      Block-Disjoint four one.taken one.in_tree (alloc_page-keeps 2 r₂ (one.taken - 1) one₂);
  thread_user = Block-Disjoint three two.taken two.in_tree two.full;
  thread_kernel =
      Block-Disjoint four two.taken two.in_tree (alloc_page-keeps 2 r₂ (two.taken - 1) two.full);
  user_kernel = Block-Disjoint four three.taken three.in_tree three.full;
}
  where
    r₁ : IsReady (with_process b)
    r₁ = alloc_page-IsReady 1 r

    r₂ : IsReady (with_thread b)
    r₂ = alloc_page-IsReady 1 r₁

    r₃ : IsReady (with_stack b)
    r₃ = alloc_page-IsReady 2 r₂

    one : Block 1 b (with_process b) (alloc_page 1 b).0
    one = alloc_page-granted 1 r has.process

    two : Block 1 (with_process b) (with_thread b) (alloc_page 1 (with_process b)).0
    two = alloc_page-granted 1 r₁ has.thread

    three : Block 2 (with_thread b) (with_stack b) (alloc_page 2 (with_thread b)).0
    three = alloc_page-granted 2 r₂ has.user

    four : Block 2 (with_stack b) (alloc_page 2 (with_stack b)).1 (alloc_page 2 (with_stack b)).0
    four = alloc_page-granted 2 r₃ has.kernel

    one₂ : (with_thread b).occupied (one.taken - 1) ≡ 2
    one₂ = alloc_page-keeps 1 r₁ (one.taken - 1) one.full

-- The process at an address has just begun.
pub record HasBegun (entry_point args : ℕ) (before w : Machine) (a : ℕ) : Type 0 where
  at : a ≡ (alloc_page 1 before.heap.sched.heap).0
  pid : (w.heap.sched.processes a).pid ≡ before.next_pid
  state : (w.heap.sched.processes a).state ≡ ready
  active : (w.heap.sched.processes a).active_thread ≡ 0
  one_thread : (w.heap.sched.processes a).number_of_threads ≡ 1
  first :
      (w.heap.sched.processes a).thread 0 ≡ (alloc_page 1 (with_process before.heap.sched.heap)).0
  some_thread : (w.heap.sched.processes a).thread 0 ≢ null
  no_other : (j : ℕ) → 0 < j → j < max_threads → (w.heap.sched.processes a).thread j ≡ null
  entry : (w.heap.sched.threads ((w.heap.sched.processes a).thread 0)).entry_point ≡ entry_point
  above_bottom :
      (alloc_page 2 (with_thread before.heap.sched.heap)).0
      ≤ (w.heap.sched.threads ((w.heap.sched.processes a).thread 0)).user_stack
  below_top :
      (w.heap.sched.threads ((w.heap.sched.processes a).thread 0)).user_stack + stack_frame_size
      ≤ (alloc_page 2 (with_thread before.heap.sched.heap)).0 + 2 * page_size
  kernel_stack :
      (w.heap.sched.threads ((w.heap.sched.processes a).thread 0)).kernel_stack
      ≡ (alloc_page 2 (with_stack before.heap.sched.heap)).0 + 2 * page_size
  starts :
      (w.frames (w.heap.sched.threads ((w.heap.sched.processes a).thread 0)).user_stack).rip
      ≡ before.call_process
  first_argument :
      (w.frames (w.heap.sched.threads ((w.heap.sched.processes a).thread 0)).user_stack).rdi
      ≡ entry_point
  last_argument :
      (w.frames (w.heap.sched.threads ((w.heap.sched.processes a).thread 0)).user_stack).rcx ≡ args
  next : w.next_pid ≡ add32 before.next_pid 1

-- Where `getProcess` puts the thread and the frame on the stack of the user.
begin_process_first :
    (entry_point args : ℕ) (w : Machine)
    → ((begin_process entry_point args w).1.heap.sched.processes
          (begin_process entry_point args w).0).thread
        0
      ≡ (alloc_page 1 (with_process w.heap.sched.heap)).0
unfolding begin_process create_thread find_next_spot find_spot_loop fill_stack_frame
begin_process_first entry_point args w = ground arith

begin_process_stack :
    (entry_point args : ℕ) (w : Machine)
    → ((begin_process entry_point args w).1.heap.sched.threads (
        ((begin_process entry_point args w).1.heap.sched.processes
            (begin_process entry_point args w).0).thread
          0)).user_stack
      ≡ frame_of ((alloc_page 2 (with_thread w.heap.sched.heap)).0 + 2 * page_size)
unfolding begin_process create_thread find_next_spot find_spot_loop fill_stack_frame
begin_process_stack entry_point args w = ground arith

begin_process-HasBegun :
    (entry_point args : ℕ) (w : Machine)
    → HasPages w.heap.sched.heap
    → HasBegun entry_point args w
        (begin_process entry_point args w).1
        (begin_process entry_point args w).0
unfolding begin_process create_thread find_next_spot find_spot_loop fill_stack_frame
begin_process-HasBegun entry_point args w has = record {
  at = refl;
  pid = ground arith;
  state = ground arith;
  active = ground arith;
  one_thread = ground arith;
  first = begin_process_first entry_point args w;
  some_thread = λ e. omega (arith, e, begin_process_first entry_point args w, has.thread);
  no_other = λ j low top. ground arith;
  entry = ground arith;
  above_bottom = omega (arith, begin_process_stack entry_point args w, has.top);
  below_top = omega (arith, begin_process_stack entry_point args w, has.top);
  kernel_stack = ground arith;
  starts = ground arith;
  first_argument = ground arith;
  last_argument = ground arith;
  next = ground arith;
}

-- With all four pages nothing is missing.
enough_pages : (w : Machine) → HasPages w.heap.sched.heap → lacks_pages w ≡ false
enough_pages w has =
    rw
      (
        ==_ne (alloc_page 1 w.heap.sched.heap).0 null (λ e. omega (arith, e, has.process)),
        ==_ne (alloc_page 1 (with_process w.heap.sched.heap)).0 null
            (λ e. omega (arith, e, has.thread)),
        ==_ne (alloc_page 2 (with_thread w.heap.sched.heap)).0 null
            (λ e. omega (arith, e, has.user)),
        ==_ne (alloc_page 2 (with_stack w.heap.sched.heap)).0 null
            (λ e. omega (arith, e, has.kernel)),
      )
      refl

-- When the page allocator, in a ready heap, has pages for the process, its thread and its two
-- stacks, the user's stack ending below 2 ^ 64, they get pages of their own, and `getProcess`
-- returns: a process with the next pid that is ready and has one thread, the active one, at place 0
-- and none at the others. The thread has the entry point; the frame on the user's stack lies in the
-- two pages of that stack and starts in `callProcess` with the entry point and the arguments in the
-- registers.
pub get_process-HasBegun :
    (entry_point args : ℕ) (w : Machine)
    → IsReady w.heap.sched.heap
    → HasPages w.heap.sched.heap
    → (a : ℕ) × (w' : Machine) × (get_process entry_point args w ≡ some (a, w'))
      × AreSeparate w.heap.sched.heap
      × HasBegun entry_point args w w' a
unfolding get_process
get_process-HasBegun entry_point args w r has = (
  (begin_process entry_point args w).0,
  (begin_process entry_point args w).1,
  rw (get_process, enough_pages w has) refl,
  pages-AreSeparate w.heap.sched.heap r has,
  begin_process-HasBegun entry_point args w has,
)

find_next_spot-full : (t : ℕ → ℕ) → t 0 ≢ null → t 1 ≢ null → t 2 ≢ null → find_next_spot t 3 ≡ none
unfolding find_next_spot find_spot_loop
find_next_spot-full t first second third = rw (
  find_next_spot,
  find_spot_loop,
  ==_ne (t 0) null first,
  ==_ne (t 1) null second,
  ==_ne (t 2) null third,
)

-- With all three places for threads taken, `createThread` returns -1, changes neither processes nor
-- threads, and does not give back the pages that it has taken for the thread and its stacks.
create_thread-full :
    (entry_point args a : ℕ) (w : Machine)
    → (w.heap.sched.processes a).thread 0 ≢ null
    → (w.heap.sched.processes a).thread 1 ≢ null
    → (w.heap.sched.processes a).thread 2 ≢ null
    → ((create_thread entry_point args a w).0 ≡ neg 1)
      × ((create_thread entry_point args a w).1.heap ≡ (alloc_thread w).1.heap)
unfolding create_thread fill_stack_frame
create_thread-full entry_point args a w first second third =
    let full = find_next_spot-full (w.heap.sched.processes a).thread first second third in
    rw (create_thread, full) (refl, refl)
