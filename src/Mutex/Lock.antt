-- ===== src/Mutex/Lock.antt =====
-- Kernel/mutex.c, `lockMutex` and `freeMutex`: who holds a mutex and who waits for it.
use mathlib.Core.Option
use sistemas_operativos.Base.{
  ℕ, ◌+◌, ◌≤◌, ◌<◌, ◌≡◌, ◌≢◌, refl, ap, ◌∙◌, arith, List, ◌∷◌, ◌++◌, some, inl, inr, true, false,
  length, if◌then◌else◌, ◌==◌, ==_self, ==_ne, length-set, neg, add32, sub32, take, drop,
  length-append, ltb, ◌&&◌, non_negative,
}
use sistemas_operativos.Run.{done, yielded}
use sistemas_operativos.Scheduler.{blocked, ready, get_current_pid, change_process_state}
use sistemas_operativos.Scheduler.State.{state_of, state_of-change_process_state}
use sistemas_operativos.Mutex.Queue.{waiters, length-waiters, free_in_queue_lem, first_blocked_lem}
use sistemas_operativos.Mutex.{
  Mutex, World, set_mutex, set_state, is_valid_mutex, is_queue_full, add_to_blocked, lock_mutex,
  free_in_queue, unblock_process, free_mutex, max_blocked_queue_size, no_blocked_queue_value,
  first_blocked,
}

-- The count is the number of waiting pids, and nobody waits for a free mutex.
pub record IsSound (m : Mutex) : Type 0 where
  pub sized : length m.queue ≡ max_blocked_queue_size
  pub counted : m.cardinal_blocked ≡ length (waiters m.queue)
  pub bit : m.mutex ≤ 1
  pub held : m.mutex ≡ 0 → m.cardinal_blocked ≡ 0

-- Locking a free mutex takes it and lets the caller go on.
pub lock_mutex-free :
    (i : ℕ) (w : World)
    → is_valid_mutex i w ≡ true
    → IsSound (w.mutexes i)
    → (w.mutexes i).mutex ≡ 0
    → lock_mutex i w
      ≡ done tt (set_mutex i (record (w.mutexes i) { mutex = 1; cardinal_blocked = 0 }) w)
unfolding lock_mutex
lock_mutex-free i w valid v free =
    let open_lock : ((w.mutexes i).mutex == 0) && ((w.mutexes i).cardinal_blocked == 0) ≡ true =
      ground arith in
    rw (valid, open_lock)

-- What joining the queue does to a mutex with room.
pub record Joined (pid : ℕ) (m m' : Mutex) : Type 0 where
  pub before : List ℕ
  pub behind : List ℕ
  pub was : waiters m.queue ≡ before ++ behind
  pub now : waiters m'.queue ≡ before ++ pid ∷ behind
  pub sound : IsSound m'
  pub still : m'.mutex ≡ m.mutex

add_to_blocked-Joined :
    (pid : ℕ) (m : Mutex)
    → IsSound m
    → m.mutex ≡ 1
    → m.cardinal_blocked < max_blocked_queue_size
    → pid ≢ no_blocked_queue_value
    → Joined pid m (add_to_blocked pid m)
unfolding add_to_blocked
add_to_blocked-Joined pid m v taken room real =
    elim (free_in_queue_lem m.queue 0 pid (omega (arith, v.sized)) real) [
      | inl (full, all) ↦ absurd (omega (arith, all, v.sized, v.counted))
      | inr (p, lt, e, f, g) ↦
          let at : free_in_queue m.queue 0 ≡ p = omega (arith, e) in
          let count : add32 m.cardinal_blocked 1 ≡ m.cardinal_blocked + 1 = omega arith in
          rw (at, ==_ne p (neg 2) (omega (arith, v.sized)), count)
            (record {
              before = take p m.queue;
              behind = waiters (drop p m.queue);
              was = f;
              now = g;
              sound = record {
                sized = length-set m.queue p pid ∙ v.sized;
                counted = rw g (
                    omega (
                      arith,
                      v.counted,
                      ap length f,
                      length-append (take p m.queue) (waiters (drop p m.queue)),
                      length-append (take p m.queue) (pid ∷ waiters (drop p m.queue)),
                    ));
                bit = v.bit;
                held = λ z. absurd (omega arith);
              };
              still = refl;
            })
    ]

-- A caller that finds the mutex taken, with room in the queue, gives up the processor as one more
-- waiting pid, and is blocked; when it is resumed it goes on at once. Nobody else's state changes.
pub lock_mutex-taken :
    (i : ℕ) (w : World)
    → is_valid_mutex i w ≡ true
    → IsSound (w.mutexes i)
    → (w.mutexes i).mutex ≡ 1
    → (w.mutexes i).cardinal_blocked < max_blocked_queue_size
    → get_current_pid w.sched ≢ no_blocked_queue_value
    → (w' : World) × (lock_mutex i w ≡ yielded w' (λ later. done tt later))
      × Joined (get_current_pid w.sched) (w.mutexes i) (w'.mutexes i)
      × (state_of (get_current_pid w.sched) w'.sched
          ≡ Option.map (λ _. blocked) (state_of (get_current_pid w.sched) w.sched))
      × ((other : ℕ)
          → get_current_pid w.sched ≢ other
          → state_of other w'.sched ≡ state_of other w.sched)
unfolding lock_mutex
lock_mutex-taken i w valid v taken room real = (
  set_state pid blocked (set_mutex i m w),
  let closed : ((w.mutexes i).mutex == 0) && ((w.mutexes i).cardinal_blocked == 0) ≡ false =
        ground arith in
      let not_full : is_queue_full (w.mutexes i) ≡ false = ground arith in
      rw (valid, closed, not_full),
  rw (==_self i) (add_to_blocked-Joined pid (w.mutexes i) v taken room real),
  state_of-change_process_state pid pid blocked w.sched ∙ rw (==_self pid),
  λ other ne. state_of-change_process_state pid other blocked w.sched ∙ rw (==_ne pid other ne),
)
  where
    pid : ℕ
    pid = get_current_pid w.sched

    m : Mutex
    m = add_to_blocked pid (w.mutexes i)

-- With a full queue `lockMutex` blocks whatever pid the unset local holds: a caller with another
-- pid keeps its state, is not put on the queue, and goes on as if it held the mutex.
lock_mutex-full :
    (i : ℕ) (w : World)
    → is_valid_mutex i w ≡ true
    → IsSound (w.mutexes i)
    → (w.mutexes i).mutex ≡ 1
    → (w.mutexes i).cardinal_blocked ≡ max_blocked_queue_size
    → w.junk ≢ get_current_pid w.sched
    → (w' : World) × (lock_mutex i w ≡ yielded w' (λ later. done tt later))
      × (w'.mutexes i ≡ w.mutexes i)
      × (state_of (get_current_pid w.sched) w'.sched ≡ state_of (get_current_pid w.sched) w.sched)
unfolding lock_mutex
lock_mutex-full i w valid v taken count other = (
  set_state w.junk blocked (set_mutex i (w.mutexes i) w),
  let closed : ((w.mutexes i).mutex == 0) && ((w.mutexes i).cardinal_blocked == 0) ≡ false =
        ground arith in
      let full : is_queue_full (w.mutexes i) ≡ true = ground arith in rw (valid, closed, full),
  rw (==_self i),
  state_of-change_process_state w.junk (get_current_pid w.sched) blocked w.sched
      ∙ rw (==_ne w.junk (get_current_pid w.sched) other),
)

-- What `freeMutex` does to a mutex that others wait for.
pub record Handed (pid : ℕ) (m m' : Mutex) : Type 0 where
  pub first : waiters m.queue ≡ pid ∷ waiters m'.queue
  pub sound : IsSound m'
  pub kept : m'.mutex ≡ m.mutex

unblock_process_lem :
    (i : ℕ) (w : World) (pid : ℕ) (ys : List ℕ)
    → first_blocked (w.mutexes i).queue ≡ some (pid, ys)
    → unblock_process i w
      ≡ set_mutex i (record (w.mutexes i) { queue = ys }) (set_state pid ready w)
unfolding unblock_process
unblock_process_lem i w pid ys e = rw (e, unblock_process)

freed : ℕ → ℕ → List ℕ → World → World
freed i pid ys w =
    set_mutex i
      (record (w.mutexes i) {
        queue = ys;
        cardinal_blocked = sub32 (w.mutexes i).cardinal_blocked 1;
      })
      (set_mutex i (record (w.mutexes i) { queue = ys }) (set_state pid ready w))

free_mutex-freed :
    (i : ℕ) (w : World)
    → is_valid_mutex i w ≡ true
    → IsSound (w.mutexes i)
    → 0 < (w.mutexes i).cardinal_blocked
    → (pid : ℕ) (ys : List ℕ) → first_blocked (w.mutexes i).queue ≡ some (pid, ys)
    → free_mutex i w ≡ freed i pid ys w
unfolding free_mutex freed
free_mutex-freed i w valid v some_wait pid ys e =
    let counts : non_negative (w.mutexes i).cardinal_blocked && ltb 0 (w.mutexes i).cardinal_blocked
        ≡ true =
      ground (arith, bound) in
    rw (valid, counts, unblock_process_lem i w pid ys e, ==_self i)
  where
    bound : (w.mutexes i).cardinal_blocked ≤ 20
    bound = omega (arith, v.counted, v.sized, length-waiters (w.mutexes i).queue)

free_mutex-Handed :
    (i : ℕ) (w : World)
    → is_valid_mutex i w ≡ true
    → IsSound (w.mutexes i)
    → 0 < (w.mutexes i).cardinal_blocked
    → (pid : ℕ) (ys : List ℕ) → first_blocked (w.mutexes i).queue ≡ some (pid, ys)
    → waiters (w.mutexes i).queue ≡ pid ∷ waiters ys
    → length ys ≡ length (w.mutexes i).queue
    → Handed pid (w.mutexes i) ((free_mutex i w).mutexes i)
unfolding freed
free_mutex-Handed i w valid v some_wait pid ys e f g =
    rw (free_mutex-freed i w valid v some_wait pid ys e, ==_self i)
      (record {
        first = f;
        sound = record {
          sized = g ∙ v.sized;
          counted = omega (arith, v.counted, ap length f, bound);
          bit = v.bit;
          held = λ z. absurd (omega (arith, v.held z));
        };
        kept = refl;
      })
  where
    bound : (w.mutexes i).cardinal_blocked ≤ 20
    bound = omega (arith, v.counted, v.sized, length-waiters (w.mutexes i).queue)

free_mutex-state :
    (i : ℕ) (w : World)
    → is_valid_mutex i w ≡ true
    → IsSound (w.mutexes i)
    → 0 < (w.mutexes i).cardinal_blocked
    → (pid : ℕ) (ys : List ℕ) → first_blocked (w.mutexes i).queue ≡ some (pid, ys)
    → (free_mutex i w).sched ≡ change_process_state pid ready w.sched
unfolding freed
free_mutex-state i w valid v some_wait pid ys e =
    rw (free_mutex-freed i w valid v some_wait pid ys e)

-- Freeing a mutex that pids wait for makes the first of them ready and takes it off the queue; the
-- mutex stays taken, for that pid. No other pid's state changes.
pub free_mutex-hands_over :
    (i : ℕ) (w : World)
    → is_valid_mutex i w ≡ true
    → IsSound (w.mutexes i)
    → 0 < (w.mutexes i).cardinal_blocked
    → (pid : ℕ) × Handed pid (w.mutexes i) ((free_mutex i w).mutexes i)
      × ((other : ℕ)
          → state_of other (free_mutex i w).sched ≡ (
              if pid == other
              then Option.map (λ _. ready) (state_of pid w.sched)
              else state_of other w.sched))
free_mutex-hands_over i w valid v some_wait = elim (first_blocked_lem (w.mutexes i).queue) [
  | inl (_, nobody) ↦ absurd (omega (arith, v.counted, ap length nobody))
  | inr (pid, ys, e, f, g) ↦ (
    pid,
    free_mutex-Handed i w valid v some_wait pid ys e f g,
    λ other.
        rw (free_mutex-state i w valid v some_wait pid ys e)
          (state_of-change_process_state pid other ready w.sched),
  )
]

-- Freeing a mutex that nobody waits for opens it.
pub free_mutex-opens :
    (i : ℕ) (w : World)
    → is_valid_mutex i w ≡ true
    → IsSound (w.mutexes i)
    → (w.mutexes i).cardinal_blocked ≡ 0
    → free_mutex i w ≡ set_mutex i (record (w.mutexes i) { mutex = 0 }) w
unfolding free_mutex
free_mutex-opens i w valid v nobody =
    let zero_count : non_negative (w.mutexes i).cardinal_blocked
          && ltb 0 (w.mutexes i).cardinal_blocked
        ≡ false =
      ground arith in
    rw (valid, zero_count)
