-- ===== src/Semaphores/Wait.antt =====
-- Kernel/semaphores.c, `wait`: who passes and who is blocked.
use mathlib.Core.Option
use sistemas_operativos.Base.{
  ℕ, ◌+◌, ◌≤◌, ◌<◌, ◌^◌, ◌≡◌, ◌≢◌, ◌⊎◌, refl, ap, ◌∙◌, arith, List, ◌∷◌, ◌++◌, inl, inr, true,
  false, length, if◌then◌else◌, ◌==◌, ==_self, ==_ne, Bool-cases, length-set, set, neg, add32,
  sub32, take, drop, length-append, non_negative,
}
use sistemas_operativos.Run.{done, yielded}
use sistemas_operativos.Scheduler.{Sched, blocked, change_process_state}
use sistemas_operativos.Scheduler.State.{state_of, state_of-change_process_state}
use sistemas_operativos.Mutex.Queue.{waiters, length-waiters, free_in_queue_lem}
use sistemas_operativos.Mutex.Section.{free_mutex-taken, taken-mutexes}
use sistemas_operativos.Mutex.Lock.{IsSound, lock_mutex-free}
use sistemas_operativos.Mutex.{
  World, set_mutex, set_state, is_valid_mutex, free_in_queue, max_blocked_queue_size,
  no_blocked_queue_value, no_space_left_m,
}
use sistemas_operativos.Semaphores.{
  Semaphore, System, set_semaphore, on_world, current_pid, is_valid_semaphore, add_to_sem_blocked,
  unlock, wait_locked, wait,
}
use sistemas_operativos.Semaphores.Count.{IsCounting, IsCounting-bound}

-- The mutex of semaphore `i` can be taken at once.
pub record IsOpen (i : ℕ) (s : System) : Type 0 where
  pub valid : is_valid_mutex (s.semaphores i).mutex s.world ≡ true
  pub sound : IsSound (s.world.mutexes (s.semaphores i).mutex)
  pub free : (s.world.mutexes (s.semaphores i).mutex).mutex ≡ 0

-- The system once the caller has the mutex.
abbrev locked : ℕ → System → System
locked i s =
    let k = (s.semaphores i).mutex in
    on_world (set_mutex k (record (s.world.mutexes k) { mutex = 1; cardinal_blocked = 0 })) s

wait-locked :
    (i : ℕ) (s : System)
    → is_valid_semaphore i s ≡ true
    → IsOpen i s
    → wait i s ≡ wait_locked i (locked i s)
unfolding wait
wait-locked i s valid v =
    rw (valid, lock_mutex-free (s.semaphores i).mutex s.world v.valid v.sound v.free)

-- What joining the queue does to a semaphore.
pub record Joined (pid : ℕ) (x y : Semaphore) : Type 0 where
  pub before : List ℕ
  pub behind : List ℕ
  pub was : waiters x.queue ≡ before ++ behind
  pub now : waiters y.queue ≡ before ++ pid ∷ behind
  pub value : y.semaphore ≡ sub32 x.semaphore 1
  pub counting : IsCounting y

abbrev lowered : Semaphore → Semaphore
lowered x = record x { semaphore = sub32 x.semaphore 1 }

-- The value is not positive.
abbrev pub IsUsedUp : Semaphore → Type 0
IsUsedUp x = (x.semaphore ≡ 0) ⊎ (2 ^ 31 ≤ x.semaphore)

add_to_sem_blocked-Joined :
    (pid : ℕ) (x : Semaphore)
    → IsCounting x
    → IsUsedUp x
    → x.cardinal_blocked < max_blocked_queue_size
    → pid ≢ no_blocked_queue_value
    → Joined pid x (add_to_sem_blocked pid (lowered x))
unfolding add_to_sem_blocked
add_to_sem_blocked-Joined pid x v low room real =
    elim (free_in_queue_lem x.queue 0 pid (omega (arith, v.sized)) real) [
      | inl (full, all) ↦ absurd (omega (arith, all, v.sized, v.counted))
      | inr (p, lt, e, f, g) ↦
          let at : free_in_queue x.queue 0 ≡ p = omega (arith, e) in
          let count : add32 x.cardinal_blocked 1 ≡ x.cardinal_blocked + 1 = omega arith in
          rw (at, ==_ne p (neg 2) (omega (arith, v.sized)), count)
            (record {
              before = take p x.queue;
              behind = waiters (drop p x.queue);
              was = f;
              now = g;
              value = refl;
              counting = record {
                sized = length-set x.queue p pid ∙ v.sized;
                counted = rw g (
                    omega (
                      arith,
                      v.counted,
                      ap length f,
                      length-append (take p x.queue) (waiters (drop p x.queue)),
                      length-append (take p x.queue) (pid ∷ waiters (drop p x.queue)),
                    ));
                balance = inr (ground (arith, v.balance, low));
              };
            })
    ]

add_to_sem_blocked-mutex : (pid : ℕ) (x : Semaphore) → (add_to_sem_blocked pid x).mutex ≡ x.mutex
unfolding add_to_sem_blocked
add_to_sem_blocked-mutex pid x = elim (Bool-cases (free_in_queue x.queue 0 == neg 2)) [
  | inl full ↦ rw full
  | inr room ↦ rw room
]

-- A caller that finds the mutex of the semaphore free and the value positive goes on at once: the
-- value is one less, and neither a mutex nor a process has changed.
wait-passes :
    (i : ℕ) (s : System)
    → is_valid_semaphore i s ≡ true
    → IsOpen i s
    → IsCounting (s.semaphores i)
    → 0 < (s.semaphores i).semaphore
    → (s.semaphores i).semaphore < 2 ^ 31
    → (s' : System) × (wait i s ≡ done tt s')
      × ((s'.semaphores i).semaphore + 1 ≡ (s.semaphores i).semaphore)
      × IsCounting (s'.semaphores i)
      × (s'.world.sched ≡ s.world.sched)
      × ((k : ℕ) → s'.world.mutexes k ≡ s.world.mutexes k)
unfolding wait_locked
wait-passes i s valid o v some_left small = (
  unlock i (set_semaphore i (lowered (s.semaphores i)) (locked i s)),
  let passes : non_negative (sub32 (s.semaphores i).semaphore 1) ≡ true = ground arith in
      rw (wait-locked i s valid o, passes),
  rw (==_self i) (omega arith),
  rw (==_self i) (record {
    sized = v.sized;
    counted = v.counted;
    balance = inl (
      omega arith,
      elim v.balance [
        | inl (le, nobody) ↦ nobody
        | inr total ↦ absurd (omega (arith, IsCounting-bound (s.semaphores i) v))
      ],
    );
  }),
  rw (==_self i)
      (ap (λ (w : World). w.sched) (free_mutex-taken k w o.valid o.sound o.free w.sched)),
  λ j. rw (==_self i) (taken-mutexes k w o.valid o.sound o.free w.sched j),
)
  where
    k : ℕ
    k = (s.semaphores i).mutex

    w : World
    w = s.world

-- A caller that finds the mutex of the semaphore free, nothing left and room in the queue joins
-- it, is blocked, gives the mutex back, so that no mutex has changed, and only then gives up the
-- processor; when it is resumed `wait` is over. Nobody else's state changes.
pub wait-blocks :
    (i : ℕ) (s : System)
    → is_valid_semaphore i s ≡ true
    → IsOpen i s
    → IsCounting (s.semaphores i)
    → IsUsedUp (s.semaphores i)
    → (s.semaphores i).cardinal_blocked < max_blocked_queue_size
    → current_pid s ≢ no_blocked_queue_value
    → (s' : System) × (wait i s ≡ yielded s' (λ later. done tt later))
      × Joined (current_pid s) (s.semaphores i) (s'.semaphores i)
      × ((other : ℕ)
          → state_of other s'.world.sched ≡ (
              if current_pid s == other
              then Option.map (λ _. blocked) (state_of (current_pid s) s.world.sched)
              else state_of other s.world.sched))
      × ((k : ℕ) → s'.world.mutexes k ≡ s.world.mutexes k)
unfolding wait_locked
wait-blocks i s valid o v low room real = (
  unlock i s₂,
  let passes : non_negative (sub32 (s.semaphores i).semaphore 1) ≡ false =
        ground (arith, v.balance, low) in
      rw (wait-locked i s valid o, passes),
  rw (==_self i) (add_to_sem_blocked-Joined pid (s.semaphores i) v low room real),
  λ other.
      rw (==_self i, same_mutex, free_mutex-taken k s.world o.valid o.sound o.free sched)
        (state_of-change_process_state pid other blocked s.world.sched),
  λ j. rw (==_self i, same_mutex) (taken-mutexes k s.world o.valid o.sound o.free sched j),
)
  where
    pid : ℕ
    pid = current_pid s

    k : ℕ
    k = (s.semaphores i).mutex

    sched : Sched
    sched = change_process_state pid blocked s.world.sched

    same_mutex : (add_to_sem_blocked pid (lowered (s.semaphores i))).mutex ≡ k
    same_mutex = add_to_sem_blocked-mutex pid (lowered (s.semaphores i))

    s₂ : System
    s₂ =
        on_world (set_state pid blocked)
          (set_semaphore i (add_to_sem_blocked pid (lowered (s.semaphores i))) (locked i s))

free_in_queue-full :
    (q : List ℕ)
    → length q ≡ max_blocked_queue_size
    → length (waiters q) ≡ length q
    → free_in_queue q 0 ≡ no_space_left_m
free_in_queue-full q sized all =
    elim (free_in_queue_lem q 0 0 (omega arith) (λ e. absurd (omega arith))) [
      | inl (full, _) ↦ full
      | inr (p, lt, e, f, g) ↦ absurd (
          omega (
            arith,
            ap length f,
            ap length g,
            length-set q p 0,
            length-waiters (set q p 0),
            length-append (take p q) (waiters (drop p q)),
            length-append (take p q) (0 ∷ waiters (drop p q)),
          ))
    ]

-- With a full queue `wait` blocks its caller although it is not put on the queue: it is blocked,
-- the queue and its count are as before, so no later call of `signal` finds it there.
wait-full :
    (i : ℕ) (s : System)
    → is_valid_semaphore i s ≡ true
    → IsOpen i s
    → IsCounting (s.semaphores i)
    → IsUsedUp (s.semaphores i)
    → (s.semaphores i).cardinal_blocked ≡ max_blocked_queue_size
    → (s' : System) × (wait i s ≡ yielded s' (λ later. done tt later))
      × ((s'.semaphores i).queue ≡ (s.semaphores i).queue)
      × ((s'.semaphores i).cardinal_blocked ≡ (s.semaphores i).cardinal_blocked)
      × (state_of (current_pid s) s'.world.sched
          ≡ Option.map (λ _. blocked) (state_of (current_pid s) s.world.sched))
unfolding wait_locked
wait-full i s valid o v low full = (
  unlock i s₂,
  let passes : non_negative (sub32 (s.semaphores i).semaphore 1) ≡ false =
        ground (arith, v.balance, low) in
      rw (wait-locked i s valid o, passes),
  rw (==_self i) (ap (λ (y : Semaphore). y.queue) unchanged),
  rw (==_self i) (ap (λ (y : Semaphore). y.cardinal_blocked) unchanged),
  rw
      (
        ==_self i,
        add_to_sem_blocked-mutex pid (lowered (s.semaphores i)),
        free_mutex-taken (s.semaphores i).mutex s.world o.valid o.sound o.free
            (change_process_state pid blocked s.world.sched),
      )
      (state_of-change_process_state pid pid blocked s.world.sched ∙ rw (==_self pid)),
)
  where
    pid : ℕ
    pid = current_pid s

    s₂ : System
    s₂ =
        on_world (set_state pid blocked)
          (set_semaphore i (add_to_sem_blocked pid (lowered (s.semaphores i))) (locked i s))

    unchanged : add_to_sem_blocked pid (lowered (s.semaphores i)) ≡ lowered (s.semaphores i)
    unchanged =
        let all : free_in_queue (s.semaphores i).queue 0 ≡ no_space_left_m =
          free_in_queue-full (s.semaphores i).queue v.sized (omega (arith, v.counted, v.sized)) in
        rw all
