-- ===== src/Semaphores/Create.antt =====
-- Kernel/semaphores.c, `semCreate` with a name that is in use.
use sistemas_operativos.Base.{
  ℕ, zero, suc, ◌+◌, ◌≡◌, ◌≢◌, refl, ap, arith, List, true, ==_self, ==_ne,
}
use sistemas_operativos.Run.{Run, then_run, done, yielded}
use sistemas_operativos.Mutex.Lock.{IsSound, lock_mutex-free, lock_mutex-taken}
use sistemas_operativos.Mutex.{
  World, set_mutex, is_valid_mutex, mutex_not_found, no_blocked_queue_value, error,
}
use sistemas_operativos.Semaphores.{
  System, lift_run, on_world, current_pid, sem_index_loop, get_sem_index, create_locked, sem_create,
  max_semaphores,
}
use sistemas_operativos.Mutex.Section.{locked-IsSound}

sem_index_loop-world :
    (n i : ℕ) (name : List ℕ) (s : System) (w' : World)
    → ((a : ℕ) → w'.text a ≡ s.world.text a)
    → sem_index_loop n i name (record s { world = w' }) ≡ sem_index_loop n i name s
unfolding sem_index_loop
sem_index_loop-world zero i name s w' h = refl
sem_index_loop-world (suc n) i name s w' h =
    rw (h (s.semaphores i).name, sem_index_loop-world n (i + 1) name s w' h)

abbrev took : System → System
took s =
    on_world
      (set_mutex s.semaphore_mutex
        (record (s.world.mutexes s.semaphore_mutex) { mutex = 1; cardinal_blocked = 0 }))
      s

took-get_sem_index : (name : ℕ) (s : System) → get_sem_index name (took s) ≡ get_sem_index name s
unfolding get_sem_index
took-get_sem_index name s =
    sem_index_loop-world max_semaphores 0 (s.world.text name) s (took s).world (λ a. refl)

-- Asked for a name that a semaphore has, `semCreate` reports an error and keeps the mutex of the
-- semaphores: whoever calls `semCreate` next, with any name, is made to wait.
sem_create-keeps_lock :
    (name start : ℕ) (s : System)
    → is_valid_mutex s.semaphore_mutex s.world ≡ true
    → IsSound (s.world.mutexes s.semaphore_mutex)
    → (s.world.mutexes s.semaphore_mutex).mutex ≡ 0
    → get_sem_index name s ≢ mutex_not_found
    → current_pid s ≢ no_blocked_queue_value
    → (s' : System) × (sem_create name start s ≡ done error s')
      × ((s'.world.mutexes s'.semaphore_mutex).mutex ≡ 1)
      × ((other begin : ℕ)
          → (s'' : System) × (then_ : System → Run System ℕ) × (sem_create other begin s'
              ≡ yielded s'' then_))
unfolding sem_create create_locked
sem_create-keeps_lock name start s valid v free used real = (
  took s,
  rw (
    lock_mutex-free s.semaphore_mutex s.world valid v free,
    took-get_sem_index name s,
    ==_ne (get_sem_index name s) mutex_not_found used,
  ),
  rw (==_self s.semaphore_mutex),
  λ other begin.
      let (w', e, _, _, _) =
        lock_mutex-taken s.semaphore_mutex (took s).world (rw (==_self s.semaphore_mutex) valid)
          (rw (==_self s.semaphore_mutex) (locked-IsSound s.semaphore_mutex s.world valid v free))
          (rw (==_self s.semaphore_mutex)) (rw (==_self s.semaphore_mutex) (omega arith)) real in
      (
        _,
        _,
        ap
            (λ (r : Run World (Unit {0})).
              then_run (lift_run (took s) r) (λ _. create_locked other begin))
            e,
      ),
)
