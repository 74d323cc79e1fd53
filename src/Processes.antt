-- ===== src/Processes.antt =====
-- Kernel/process.c, Kernel/threads.c and the part of Kernel/scheduler.c that ends processes and
-- changes threads. A process keeps its pages and its heap in `holders` of the heap; what it has of
-- pipes and its description stand elsewhere or are left out.
pub mod Removal
pub mod Threads
pub mod Spawn
pub mod Begin
pub mod Listing
pub mod Tests
use sistemas_operativos.Base.{
  ℕ, zero, suc, ◌+◌, ◌-◌, ◌*◌, ◌%◌, ◌^◌, Bool, true, false, ◌&&◌, not, if◌then◌else◌, ◌==◌, ltb,
  update, neg, add32, sub32, Option, none, some,
}
use sistemas_operativos.Buddy.{Buddy, alloc_page, dealloc_page, number_of_pages_to_alloc, page_size}
use sistemas_operativos.Scheduler.{
  Sched, Slot, Process, Thread, ProcessState, ready, null, max_threads, process_of, set_process,
  set_slot, get_process_by_id, get_current_pid, get_current_process, schedule,
}
use sistemas_operativos.Heap.{Heap, Holder, data_start}

abbrev pub init_pid : ℕ
init_pid = 0

abbrev pub on_buddy : Buddy → Heap → Heap
on_buddy b h = record h { sched = record h.sched { heap = b } }

abbrev pub on_sched : Sched → Heap → Heap
on_sched s h = record h { sched = s }

-- A call of `deallocPage` whose result is not used; `none` is a write outside its array.
abbrev pub give_back : ℕ → Heap → Option Heap
give_back page h = elim (dealloc_page page h.sched.heap) [
  | none ↦ none
  | some (ok, b) ↦ some (on_buddy b h)
]

-- The loops of `freeProcessPages`, over the threads and the pages left.
pub free_stacks_loop : ℕ → ℕ → Process → Heap → Option Heap
free_stacks_loop zero i p h = some h
free_stacks_loop (suc n) i p h = elim (give_back (h.sched.threads (p.thread i)).user_stack h) [
  | none ↦ none
  | some h₁ ↦ elim (give_back (h₁.sched.threads (p.thread i)).kernel_stack h₁) [
    | none ↦ none
    | some h₂ ↦ free_stacks_loop n (i + 1) p h₂
  ]
]

pub free_pages_loop : ℕ → ℕ → Holder → Heap → Option Heap
free_pages_loop zero i owner h = some h
free_pages_loop (suc n) i owner h = elim (give_back (owner.pages i) h) [
  | none ↦ none
  | some h' ↦ free_pages_loop n (i + 1) owner h'
]

unfoldable pub free_process_pages : ℕ → Heap → Option Heap
unfolding free_stacks_loop free_pages_loop
free_process_pages pid h =
    let a = get_process_by_id pid h.sched in
    let p = h.sched.processes a in
    let owner = h.holders a in
    elim (give_back a h) [
      | none ↦ none
      | some h₁ ↦ elim (free_stacks_loop p.number_of_threads 0 p h₁) [
        | none ↦ none
        | some h₂ ↦ elim (give_back (data_start owner.heap) h₂) [
          | none ↦ none
          | some h₃ ↦ free_pages_loop owner.pages_index 0 owner h₃
        ]
      ]
    ]

abbrev pub eq_process : Process → Process → Bool
eq_process a b = a.pid == b.pid

-- The loop of `removeProcess`, with the rounds left: the slot in front of the one with the pid, and
-- that slot.
pub remove_loop : ℕ → ℕ → ℕ → ℕ → Sched → Option (ℕ × ℕ)
remove_loop zero prev slot pid s = none
remove_loop (suc n) prev slot pid s =
    let rest = remove_loop n slot (s.slots slot).next pid s in
    if (process_of s slot).pid == pid then some (prev, slot) else rest

-- Taking a slot out of the ring.
abbrev pub unlink : ℕ → ℕ → Sched → Sched
unlink prev slot s =
    let s' = set_slot prev (record (s.slots prev) { next = (s.slots slot).next }) s in
    record s' { cardinal_processes = sub32 s.cardinal_processes 1 }

-- Whether `removeProcess` calls `_yield` at its end, and what it leaves.
unfoldable pub remove_process : ℕ → Heap → Option (Bool × Heap)
unfolding free_process_pages remove_loop
remove_process pid h =
    let s = h.sched in
    let here = process_of s s.current in
    let alone = eq_process here (process_of s (s.slots s.current).next) && (here.pid == pid) in
    let last : Option (Bool × Heap) = elim (free_process_pages pid h) [
      | none ↦ none
      | some h' ↦
          let cardinal = sub32 h'.sched.cardinal_processes 1 in
          some
            (false, on_sched (record h'.sched { current = null; cardinal_processes = cardinal }) h')
    ] in
    let found : Option (Bool × Heap) =
      elim (remove_loop s.cardinal_processes s.current (s.slots s.current).next pid s) [
        | none ↦ some (false, h)
        | some (prev, slot) ↦
            some (eq_process (process_of s slot) here, on_sched (unlink prev slot s) h)
      ] in
    if pid == 0
    then some (true, h)
    else if s.current == null
    then some (false, h)
    else if alone
    then last
    else found

-- The loop of `killAllExceptCurrent` from a slot on, on fuel. No call of `removeProcess` in it
-- removes the current process.
pub kill_loop : ℕ → ℕ → ℕ → Heap → Option Heap
unfolding remove_process
kill_loop zero pid aux h = none
kill_loop (suc fuel) pid aux h =
    let other = (process_of h.sched aux).pid in
    let removed : Option (Bool × Heap) =
      if not (other == pid) && not (other == init_pid)
      then remove_process other h
      else some (false, h) in
    let rest : Option Heap = elim removed [
      | none ↦ none
      | some (yields, h') ↦ kill_loop fuel pid (h'.sched.slots aux).next h'
    ] in
    if aux == h.sched.current then some h else rest

unfoldable pub kill_all_except_current : ℕ → Heap → Option Heap
unfolding kill_loop
kill_all_except_current fuel h =
    kill_loop fuel (get_current_pid h.sched) (h.sched.slots h.sched.current).next h

-- The loop of `nextThread`, on fuel.
pub next_thread_loop : ℕ → ℕ → Process → Option ℕ
next_thread_loop zero i p = none
next_thread_loop (suc fuel) i p =
    let rest = next_thread_loop fuel (add32 i 1) p in
    let at = add32 p.active_thread i % max_threads in if p.thread at == null then rest else some at

unfoldable pub next_thread : ℕ → Sched → Option ℕ
unfolding next_thread_loop
next_thread fuel s = next_thread_loop fuel 1 (process_of s s.current)

-- The stack of the kernel, once the stack of the user is kept.
unfoldable pub switch_user_to_kernel : ℕ → Sched → ℕ × Sched
switch_user_to_kernel sp s =
    let p = process_of s s.current in
    let t = p.thread p.active_thread in
    let threads = update s.threads t (record (s.threads t) { user_stack = sp }) in
    ((threads t).kernel_stack, record s { threads = threads })

unfoldable pub switch_kernel_to_user : ℕ → Sched → Option (ℕ × Sched)
unfolding next_thread schedule
switch_kernel_to_user fuel s = elim (schedule s) [
  | none ↦ none
  | some s' ↦ elim (next_thread fuel s') [
    | none ↦ none
    | some index ↦
        let p = process_of s' s'.current in
        some (
          (s'.threads (p.thread index)).user_stack,
          set_process (s'.slots s'.current).process (record p { active_thread = index }) s',
        )
  ]
]

unfoldable pub get_current_entry_point : Sched → ℕ
get_current_entry_point s =
    let p = process_of s s.current in (s.threads (p.thread p.active_thread)).entry_point
