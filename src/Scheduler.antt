-- ===== src/Scheduler.antt =====
-- Kernel/scheduler.c: the ring of process slots. Memory is typed: `slots`, `processes` and `threads`
-- give what lies at an address. A pid is a number, -1 its bit pattern; NULL is 0, and reading
-- through it reads memory like any other address.
pub mod Ring
pub mod State
pub mod Turns
pub mod Tests
use sistemas_operativos.Base.{
  ℕ, zero, suc, ◌+◌, ◌*◌, ◌-◌, Bool, true, false, ◌&&◌, ◌||◌, not, if◌then◌else◌, ◌==◌, ltb, update,
  neg, List, [], ◌∷◌, Option, none, some,
}
use sistemas_operativos.Buddy.{Buddy, alloc_page, number_of_pages_to_alloc}

pub data ProcessState : Type 0 where
  running ready blocked dead sleeping : ProcessState

pub record Thread : Type 0 where
  pub user_stack : ℕ
  pub kernel_stack : ℕ
  pub entry_point : ℕ

pub record Process : Type 0 where
  pub pid : ℕ
  pub state : ProcessState
  pub active_thread : ℕ
  pub number_of_threads : ℕ
  pub thread : ℕ → ℕ

pub record Slot : Type 0 where
  pub next : ℕ
  pub process : ℕ

pub record Sched : Type 0 where
  pub current : ℕ
  pub cardinal_processes : ℕ
  pub slots : ℕ → Slot
  pub processes : ℕ → Process
  pub threads : ℕ → Thread
  pub heap : Buddy

abbrev pub null : ℕ
null = 0

abbrev pub slot_size : ℕ
slot_size = 16

abbrev pub max_threads : ℕ
max_threads = 10

abbrev pub process_of : Sched → ℕ → Process
process_of s slot = s.processes (s.slots slot).process

abbrev pub set_process : ℕ → Process → Sched → Sched
set_process address p s = record s { processes = update s.processes address p }

abbrev pub set_slot : ℕ → Slot → Sched → Sched
set_slot address x s = record s { slots = update s.slots address x }

abbrev is_ready : ProcessState → Bool
is_ready ready = true
is_ready _ = false

abbrev demote : ProcessState → ProcessState
demote running = ready
demote st = st

unfoldable pub new_process_slot : ℕ → Sched → ℕ × Sched
new_process_slot process s =
    let (page, heap) = alloc_page (number_of_pages_to_alloc slot_size) s.heap in
    (
      page,
      record s {
        heap = heap;
        slots = update s.slots page (record { next = (s.slots page).next; process = process });
      },
    )

-- The loop of `getProcessById` reads `slot[i]`, the slot that would lie `i` slots behind `current`
-- in memory. The rounds left come first; the result is an address or NULL.
get_process_loop : ℕ → ℕ → ℕ → Sched → ℕ
get_process_loop zero i pid s = null
get_process_loop (suc n) i pid s =
    let at = s.current + slot_size * i in
    let rest = get_process_loop n (i + 1) pid s in
    if (process_of s at).pid == pid then (s.slots at).process else rest

unfoldable pub get_process_by_id : ℕ → Sched → ℕ
unfolding get_process_loop
get_process_by_id pid s = get_process_loop s.cardinal_processes 0 pid s

unfoldable pub get_current_pid : Sched → ℕ
get_current_pid s = if s.current == null then neg 1 else (process_of s s.current).pid

unfoldable pub get_current_process : Sched → ℕ
get_current_process s = (s.slots s.current).process

-- The loop of `changeProcessState`, from `slot` on, the rounds left first.
pub change_loop : ℕ → ℕ → ℕ → ProcessState → Sched → Sched
change_loop zero slot pid st s = s
change_loop (suc n) slot pid st s =
    let rest = change_loop n (s.slots slot).next pid st s in
    if (process_of s slot).pid == pid
    then set_process (s.slots slot).process (record (process_of s slot) { state = st }) s
    else rest

unfoldable pub change_process_state : ℕ → ProcessState → Sched → Sched
unfolding change_loop
change_process_state pid st s = change_loop s.cardinal_processes s.current pid st s

unfoldable pub add_process : ℕ → Sched → Sched
unfolding new_process_slot
add_process process s =
    let (page, s') = new_process_slot process s in
    if s'.current == null
    then set_slot page (record { next = page; process = (s'.slots page).process })
        (record s' { current = page })
    else let follower = (s'.slots s'.current).next in
      let linked =
        set_slot s'.current (record { next = page; process = (s'.slots s'.current).process }) s' in
      set_slot page (record { next = follower; process = (linked.slots page).process }) linked

unfoldable pub get_current_user_stack : Sched → ℕ
get_current_user_stack s =
    let p = process_of s s.current in (s.threads (p.thread p.active_thread)).user_stack

set_user_stack : ℕ → Sched → Sched
set_user_stack sp s =
    let p = process_of s s.current in
    let t = p.thread p.active_thread in
    record s { threads = update s.threads t (record (s.threads t) { user_stack = sp }) }

-- The `while` loop of `schedule`, which has no other end than a ready process: `none` when the
-- rounds run out.
pub find_ready : ℕ → ℕ → Sched → Option ℕ
find_ready zero slot s = none
find_ready (suc n) slot s =
    let rest = find_ready n (s.slots slot).next s in
    if is_ready (process_of s slot).state then some slot else rest

-- A running current process becomes ready.
pub yield_turn : Sched → Sched
yield_turn s =
    let p = process_of s s.current in
    set_process (s.slots s.current).process (record p { state = demote p.state }) s

pub begin_turn : ℕ → Sched → Sched
begin_turn slot s =
    set_process (s.slots slot).process (record (process_of s slot) { state = running })
      (record s { current = slot })

-- As many rounds as there are processes; `none` if none of them is ready.
unfoldable pub schedule : Sched → Option Sched
unfolding find_ready yield_turn begin_turn
schedule s =
    let s' = yield_turn s in
    elim (find_ready s'.cardinal_processes (s'.slots s'.current).next s') [
      | none ↦ none
      | some slot ↦ some (begin_turn slot s')
    ]

-- `_yield` of asm/libasm.asm ends in this function too.
unfoldable pub next_process : ℕ → Sched → Option (ℕ × Sched)
unfolding set_user_stack schedule get_current_user_stack
next_process rsp s =
    if s.current == null then some (rsp, s) else elim (schedule (set_user_stack rsp s)) [
      | none ↦ none
      | some s' ↦ some (get_current_user_stack s', s')
    ]
