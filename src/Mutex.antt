-- ===== src/Mutex.antt =====
-- Kernel/mutex.c, with `_testAndSet` of asm/lock.asm. An `int` is its bit pattern, so the index of a
-- mutex may stand for a negative number; `mutexes` gives what lies at the index. `text` is the text
-- at an address, and `junk` the value of a local that is never set.
pub mod Queue
pub mod Lock
pub mod Section
pub mod Names
pub mod Tests
use sistemas_operativos.Base.{
  ℕ, zero, suc, ◌+◌, List, [], ◌∷◌, Bool, true, false, ◌&&◌, not, if◌then◌else◌, ◌==◌, leb, ltb,
  update, neg, add32, sub32, non_negative, set, Option, none, some,
}
use sistemas_operativos.Text.{strcmp}
use sistemas_operativos.Run.{Code, done, ◌>>=◌, ◌>>◌, pure, modify, read, give_up}
use sistemas_operativos.Scheduler.{
  Sched, ProcessState, blocked, ready, get_current_pid, change_process_state, null,
}

abbrev pub max_blocked_queue_size : ℕ
max_blocked_queue_size = 20

abbrev pub max_mutexes : ℕ
max_mutexes = 100

abbrev pub mutex_not_found : ℕ
mutex_not_found = neg 1

abbrev pub no_space_left_m : ℕ
no_space_left_m = neg 2

abbrev pub no_blocked_queue_value : ℕ
no_blocked_queue_value = neg 1

abbrev pub error : ℕ
error = neg 4

abbrev pub acquired : ℕ
acquired = 1

pub record Mutex : Type 0 where
  pub used : ℕ
  pub name : ℕ
  pub queue : List ℕ
  pub mutex : ℕ
  pub cardinal_blocked : ℕ
  pub pid_creator : ℕ

pub record World : Type 0 where
  pub sched : Sched
  pub mutexes : ℕ → Mutex
  pub admin_mutex : ℕ
  pub text : ℕ → List ℕ
  pub junk : ℕ

abbrev pub set_mutex : ℕ → Mutex → World → World
set_mutex i m w = record w { mutexes = update w.mutexes i m }

abbrev pub set_state : ℕ → ProcessState → World → World
set_state pid st w = record w { sched = change_process_state pid st w.sched }

-- A loop that fills an array, one entry a round.
pub clear_array : List ℕ → ℕ → List ℕ
clear_array [] value = []
clear_array (x ∷ xs) value = value ∷ clear_array xs value

abbrev pub cleaned : Mutex → Mutex
unfolding clear_array
cleaned m = record m {
  used = 0;
  name = null;
  cardinal_blocked = 0;
  mutex = 0;
  queue = clear_array m.queue no_blocked_queue_value;
}

unfoldable pub clean_mutex : ℕ → World → World
unfolding clear_array
clean_mutex i w =
    if non_negative i && leb max_mutexes i then w else set_mutex i (cleaned (w.mutexes i)) w

-- The rounds left, and the round.
clean_loop : ℕ → ℕ → World → World
clean_loop zero i w = w
clean_loop (suc n) i w = clean_loop n (i + 1) (clean_mutex i w)

unfoldable pub initialize_mutexes : World → World
unfolding clean_loop clean_mutex
initialize_mutexes w =
    let w' = clean_loop max_mutexes 0 w in
    set_mutex 0 (record (w'.mutexes 0) { used = 1 }) (record w' { admin_mutex = 0 })

-- The loop of `getIndex`; of `getFreeSpot` below.
pub index_loop : ℕ → ℕ → List ℕ → World → ℕ
index_loop zero i name w = mutex_not_found
index_loop (suc n) i name w =
    let rest = index_loop n (i + 1) name w in
    if (strcmp (w.text (w.mutexes i).name) name == 0) && ((w.mutexes i).used == 1) then i else rest

unfoldable pub get_index : ℕ → World → ℕ
unfolding index_loop
get_index name w = index_loop max_mutexes 0 (w.text name) w

pub free_spot_loop : ℕ → ℕ → World → ℕ
free_spot_loop zero i w = no_space_left_m
free_spot_loop (suc n) i w =
    let rest = free_spot_loop n (i + 1) w in if (w.mutexes i).used == 0 then i else rest

unfoldable pub get_free_spot : World → ℕ
unfolding free_spot_loop
get_free_spot w = free_spot_loop max_mutexes 0 w

unfoldable pub create_mutex : ℕ → World → ℕ × World
create_mutex name w =
    let pid = get_current_pid w.sched in
    let index = get_free_spot w in
    if index == no_space_left_m then (error, w) else (
      index,
      set_mutex index (record (w.mutexes index) { used = 1; name = name; pid_creator = pid }) w,
    )

abbrev pub is_valid_mutex : ℕ → World → Bool
is_valid_mutex i w =
    if non_negative i && leb max_mutexes i then false else not ((w.mutexes i).used == 0)

abbrev pub is_queue_full : Mutex → Bool
is_queue_full m = non_negative m.cardinal_blocked && leb max_blocked_queue_size m.cardinal_blocked

-- `getFreeSpotInBlockedQueue`, which loops over the whole queue; `i` is the round.
pub free_in_queue : List ℕ → ℕ → ℕ
free_in_queue [] i = no_space_left_m
free_in_queue (x ∷ xs) i = if x == no_blocked_queue_value then i else free_in_queue xs (i + 1)

pub add_to_blocked : ℕ → Mutex → Mutex
unfolding free_in_queue
add_to_blocked pid m =
    let index = free_in_queue m.queue 0 in
    if index == no_space_left_m
    then m
    else record m { queue = set m.queue index pid; cardinal_blocked = add32 m.cardinal_blocked 1 }

-- `lock CMPXCHG8B` compares eight bytes, the field `mutex` and `cardinalBlocked` behind it.
pub test_and_set : Mutex → ℕ × Mutex
test_and_set m =
    if (m.mutex == 0) && (m.cardinal_blocked == 0)
    then (acquired, record m { mutex = 1; cardinal_blocked = 0 })
    else (0, m)

-- What `lockMutex` does before `_yield` when the mutex is taken: with a full queue `pid` is not set.
pub enqueue_current : ℕ → World → World
unfolding add_to_blocked
enqueue_current i w =
    let pid = if is_queue_full (w.mutexes i) then w.junk else get_current_pid w.sched in
    let m = if is_queue_full (w.mutexes i) then w.mutexes i else add_to_blocked pid (w.mutexes i) in
    set_state pid blocked (set_mutex i m w)

unfoldable pub lock_mutex : ℕ → Code World (Unit {0})
unfolding test_and_set enqueue_current
lock_mutex i w =
    if is_valid_mutex i w
    then (let (lock, m) = test_and_set (w.mutexes i) in
        if lock == acquired then pure tt (set_mutex i m w) else give_up (enqueue_current i w))
    else pure tt w

-- The loop of `unblockProcess`: the first entry that is taken, and the queue without it.
pub first_blocked : List ℕ → Option (ℕ × List ℕ)
first_blocked [] = none
first_blocked (x ∷ xs) =
    let rest = first_blocked xs in
    if x == no_blocked_queue_value
    then elim rest [ none ↦ none | some (pid, ys) ↦ some (pid, x ∷ ys) ]
    else some (x, no_blocked_queue_value ∷ xs)

pub unblock_process : ℕ → World → World
unfolding first_blocked
unblock_process i w = elim (first_blocked (w.mutexes i).queue) [
  | none ↦ w
  | some (pid, ys) ↦ set_mutex i (record (w.mutexes i) { queue = ys }) (set_state pid ready w)
]

unfoldable pub free_mutex : ℕ → World → World
unfolding unblock_process
free_mutex i w =
    let m = w.mutexes i in
    let w' = unblock_process i w in
    let m' = w'.mutexes i in
    if is_valid_mutex i w
    then if non_negative m.cardinal_blocked && ltb 0 m.cardinal_blocked
      then set_mutex i (record m' { cardinal_blocked = sub32 m'.cardinal_blocked 1 }) w'
      else set_mutex i (record m { mutex = 0 }) w
    else w

-- The search of `getMutex`, and the creation that follows when it fails.
pub find_or_create : ℕ → World → ℕ × World
find_or_create name w =
    if get_index name w == mutex_not_found then create_mutex name w else (get_index name w, w)

unfoldable pub get_mutex : ℕ → Code World ℕ
get_mutex name = do
  admin ← read (λ w. w.admin_mutex)
  lock_mutex admin
  index ← λ w. done (find_or_create name w).0 (find_or_create name w).1
  modify (λ w. free_mutex w.admin_mutex w)
  pure index

unfoldable pub close_mutex : ℕ → World → World
close_mutex i w =
    if is_valid_mutex i w
    then if get_current_pid w.sched == (w.mutexes i).pid_creator
      then set_mutex i (record (w.mutexes i) { used = 0 }) w
      else w
    else w
