-- ===== src/Mutex/Tests.antt =====
-- Mutexes of two processes, and the theorems there.
use mathlib.Core.Option
use sistemas_operativos.Base.{
  ℕ, ◌≡◌, ◌≢◌, refl, arith, update, if◌then◌else◌, ◌==◌, [], ◌∷◌, replicate, neg,
}
use sistemas_operativos.Run.{done, yielded}
use sistemas_operativos.Scheduler.{running, ready, blocked, get_current_pid}
use sistemas_operativos.Scheduler.State.{state_of}
use sistemas_operativos.Scheduler.Tests.{pair}
use sistemas_operativos.Mutex.Lock.{Joined, Handed, lock_mutex-taken, free_mutex-hands_over}
use sistemas_operativos.Mutex.{Mutex, World, lock_mutex, free_mutex}

abbrev idle : Mutex
idle = record {
  used = 0;
  name = 0;
  queue = replicate 20 (neg 1);
  mutex = 0;
  cardinal_blocked = 0;
  pid_creator = 0;
}

-- Mutex 0 is free; mutex 1 is taken, and pid 6 waits for it; 20 pids wait for mutex 2.
abbrev world : World
world = record {
  sched = pair running blocked;
  mutexes =
      update
        (update
          (update (λ i. idle) 2
            (record idle { used = 1; mutex = 1; cardinal_blocked = 20; queue = replicate 20 6 }))
          1
          (record idle {
            used = 1;
            mutex = 1;
            cardinal_blocked = 1;
            queue = 6 ∷ replicate 19 (neg 1);
            pid_creator = 5;
          }))
        0 (record idle { used = 1 });
  admin_mutex = 0;
  text = λ a. a ∷ [];
  junk = 77;
}

pid_five : get_current_pid world.sched ≡ 5
unfolding get_current_pid
pid_five = refl

lock_mutex-taken_example :
    (w' : World) × (lock_mutex 1 world ≡ yielded w' (λ later. done tt later))
    × Joined (get_current_pid world.sched) (world.mutexes 1) (w'.mutexes 1)
    × (state_of (get_current_pid world.sched) w'.sched
        ≡ Option.map (λ _. blocked) (state_of (get_current_pid world.sched) world.sched))
    × ((other : ℕ)
        → get_current_pid world.sched ≢ other
        → state_of other w'.sched ≡ state_of other world.sched)
lock_mutex-taken_example =
    lock_mutex-taken 1 world refl (omega arith) refl (omega arith) (omega (arith, pid_five))

free_mutex-hands_over_example :
    (pid : ℕ) × Handed pid (world.mutexes 1) ((free_mutex 1 world).mutexes 1)
    × ((other : ℕ)
        → state_of other (free_mutex 1 world).sched ≡ (
            if pid == other
            then Option.map (λ _. ready) (state_of pid world.sched)
            else state_of other world.sched))
free_mutex-hands_over_example = free_mutex-hands_over 1 world refl (omega arith) (omega arith)
