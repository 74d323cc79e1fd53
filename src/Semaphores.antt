-- ===== src/Semaphores.antt =====
-- Kernel/semaphores.c, on top of Kernel/mutex.c. A semaphore's value is an `int`, as its bit
-- pattern; what `ncPrint` shows is left out.
pub mod Count
pub mod Wait
pub mod Signal
pub mod Create
pub mod Tests
use sistemas_operativos.Base.{
  ℕ, zero, suc, ◌+◌, List, Bool, false, ◌&&◌, not, if◌then◌else◌, ◌==◌, leb, ltb, update, add32,
  sub32, non_negative, set, none, some,
}
use sistemas_operativos.Text.{strcmp}
use sistemas_operativos.Run.{Run, Code, done, yielded, ◌>>=◌, ◌>>◌, pure, modify, read, give_up}
use sistemas_operativos.Scheduler.{Sched, ProcessState, blocked, ready, get_current_pid}
use sistemas_operativos.Mutex.{
  World, set_state, max_blocked_queue_size, mutex_not_found, no_space_left_m,
  no_blocked_queue_value, error, clear_array, free_in_queue, first_blocked, lock_mutex, free_mutex,
  get_mutex,
}

abbrev pub max_semaphores : ℕ
max_semaphores = 50

pub record Semaphore : Type 0 where
  pub used : ℕ
  pub name : ℕ
  pub queue : List ℕ
  pub semaphore : ℕ
  pub cardinal_blocked : ℕ
  pub mutex : ℕ
  pub pid_creator : ℕ

pub record System : Type 0 where
  pub world : World
  pub semaphores : ℕ → Semaphore
  pub semaphore_mutex : ℕ

abbrev pub set_semaphore : ℕ → Semaphore → System → System
set_semaphore i x s = record s { semaphores = update s.semaphores i x }

abbrev pub on_world : (World → World) → System → System
on_world f s = record s { world = f s.world }

-- Code of the mutexes, run inside the system; while it waits, others may change all of it.
abbrev pub lift_run : {A : Type 0} → System → Run World A → Run System A
lift_run s (done a w) = done a (record s { world = w })
lift_run s (yielded w k) = yielded (record s { world = w }) (λ s'. lift_run s' (k s'.world))

abbrev pub lift : {A : Type 0} → Code World A → Code System A
lift m s = lift_run s (m s.world)

abbrev pub current_pid : System → ℕ
current_pid s = get_current_pid s.world.sched

pub clean_semaphore : ℕ → System → System
clean_semaphore i s =
    set_semaphore i
      (record (s.semaphores i) {
        used = 0;
        semaphore = 0;
        cardinal_blocked = 0;
        queue = clear_array (s.semaphores i).queue no_blocked_queue_value;
      })
      s

clean_loop : ℕ → ℕ → System → System
clean_loop zero i s = s
clean_loop (suc n) i s = clean_loop n (i + 1) (clean_semaphore i s)

-- `name` is the address of the text "semaphoreMutex".
unfoldable pub initialize_semaphores : ℕ → Code System (Unit {0})
unfolding clean_loop clean_semaphore
initialize_semaphores name = do
  modify (clean_loop max_semaphores 0)
  index ← lift (get_mutex name)
  modify (λ s. record s { semaphore_mutex = index })

abbrev pub is_valid_semaphore : ℕ → System → Bool
is_valid_semaphore i s =
    if non_negative i && leb max_semaphores i then false else not ((s.semaphores i).used == 0)

unfoldable pub is_semaphore_queue_full : ℕ → System → Bool
is_semaphore_queue_full i s =
    non_negative (s.semaphores i).cardinal_blocked
    && leb max_blocked_queue_size (s.semaphores i).cardinal_blocked

-- `addToSemBlocked`, and `addToBlockedQueueSemaphore`, which has the same body.
pub add_to_sem_blocked : ℕ → Semaphore → Semaphore
add_to_sem_blocked pid sem =
    let index = free_in_queue sem.queue 0 in
    if index == no_space_left_m then sem else record sem {
      queue = set sem.queue index pid;
      cardinal_blocked = add32 sem.cardinal_blocked 1;
    }

pub sem_index_loop : ℕ → ℕ → List ℕ → System → ℕ
sem_index_loop zero i name s = mutex_not_found
sem_index_loop (suc n) i name s =
    let rest = sem_index_loop n (i + 1) name s in
    if (strcmp (s.world.text (s.semaphores i).name) name == 0) && ((s.semaphores i).used == 1)
    then i
    else rest

unfoldable pub get_sem_index : ℕ → System → ℕ
unfolding sem_index_loop
get_sem_index name s = sem_index_loop max_semaphores 0 (s.world.text name) s

unfoldable pub sem_open : ℕ → System → ℕ
sem_open name s = if get_sem_index name s == mutex_not_found then error else get_sem_index name s

unfoldable pub sem_close : ℕ → System → System
sem_close i s =
    if is_valid_semaphore i s
    then if current_pid s == (s.semaphores i).pid_creator
      then set_semaphore i (record (s.semaphores i) { used = 0 }) s
      else s
    else s

free_position_loop : ℕ → ℕ → System → ℕ
free_position_loop zero i s = no_space_left_m
free_position_loop (suc n) i s =
    let rest = free_position_loop n (i + 1) s in if (s.semaphores i).used == 0 then i else rest

unfoldable pub get_free_position_semaphores : System → ℕ
unfolding free_position_loop
get_free_position_semaphores s = free_position_loop max_semaphores 0 s

-- The part of `createSemaphore` behind the search for a place.
fill_semaphore : ℕ → ℕ → ℕ → ℕ → Code System ℕ
fill_semaphore index pid name start = do
  modify (λ s. set_semaphore index (record (s.semaphores index) { used = 1; name = name }) s)
  mutex ← lift (get_mutex name)
  modify (λ s.
      set_semaphore index
        (record (s.semaphores index) { mutex = mutex; semaphore = start; pid_creator = pid }) s)
  pure index

unfoldable pub create_semaphore : ℕ → ℕ → Code System ℕ
unfolding fill_semaphore
create_semaphore name start s =
    if get_free_position_semaphores s == no_space_left_m
    then done error s
    else fill_semaphore (get_free_position_semaphores s) (current_pid s) name start s

-- The part of `semCreate` behind `lockMutex`.
pub create_locked : ℕ → ℕ → Code System ℕ
create_locked name start s =
    if get_sem_index name s == mutex_not_found
    then (do
      index ← create_semaphore name start
      modify (λ s'. on_world (free_mutex s'.semaphore_mutex) s')
      pure index)
        s
    else done error s

unfoldable pub sem_create : ℕ → ℕ → Code System ℕ
unfolding create_locked
sem_create name start = do
  mutex ← read (λ s. s.semaphore_mutex)
  lift (lock_mutex mutex)
  create_locked name start

abbrev pub unlock : ℕ → System → System
unlock i s = on_world (free_mutex (s.semaphores i).mutex) s

-- The part of `wait` behind `lockMutex`.
pub wait_locked : ℕ → Code System (Unit {0})
unfolding add_to_sem_blocked
wait_locked i s =
    let sem = s.semaphores i in
    let lower = record sem { semaphore = sub32 sem.semaphore 1 } in
    let pid = current_pid s in
    if non_negative lower.semaphore
    then done tt (unlock i (set_semaphore i lower s))
    else give_up (
        unlock i
          (on_world (set_state pid blocked) (set_semaphore i (add_to_sem_blocked pid lower) s)))

unfoldable pub wait : ℕ → Code System (Unit {0})
unfolding wait_locked
wait i s =
    if is_valid_semaphore i s
    then (do lift (lock_mutex (s.semaphores i).mutex); wait_locked i) s
    else done tt s

pub unblock_process_semaphore : ℕ → System → System
unblock_process_semaphore i s = elim (first_blocked (s.semaphores i).queue) [
  | none ↦ s
  | some (pid, ys) ↦
      set_semaphore i (record (s.semaphores i) { queue = ys }) (on_world (set_state pid ready) s)
]

unfoldable pub signal : ℕ → System → System
unfolding unblock_process_semaphore
signal i s =
    let count = (s.semaphores i).cardinal_blocked in
    let woken = unblock_process_semaphore i s in
    let sem = woken.semaphores i in
    let less =
      set_semaphore i (record sem { cardinal_blocked = sub32 sem.cardinal_blocked 1 }) woken in
    let s' : System = if non_negative count && ltb 0 count then less else s in
    if is_valid_semaphore i s
    then set_semaphore i
        (record (s'.semaphores i) { semaphore = add32 (s'.semaphores i).semaphore 1 }) s'
    else s
