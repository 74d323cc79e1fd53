-- ===== src/Semaphores/Tests.antt =====
-- Semaphores of two processes, and the theorems there.
use mathlib.Core.Option
use sistemas_operativos.Base.{
  ℕ, ◌≡◌, refl, arith, update, if◌then◌else◌, ◌==◌, [], ◌∷◌, replicate, neg, inl, inr,
}
use sistemas_operativos.Run.{done, yielded}
use sistemas_operativos.Scheduler.{running, blocked, get_current_pid}
use sistemas_operativos.Scheduler.State.{state_of}
use sistemas_operativos.Scheduler.Tests.{pair}
use sistemas_operativos.Text.{strcmp}
use sistemas_operativos.Mutex.{Mutex}
use sistemas_operativos.Semaphores.{Semaphore, System, current_pid, wait, get_sem_index}
use sistemas_operativos.Semaphores.Count.{IsCounting}
use sistemas_operativos.Semaphores.Wait.{IsOpen, Joined, wait-blocks}

abbrev free_mutex : Mutex
free_mutex = record {
  used = 1;
  name = 0;
  queue = replicate 20 (neg 1);
  mutex = 0;
  cardinal_blocked = 0;
  pid_creator = 0;
}

abbrev plain : Semaphore
plain = record {
  used = 1;
  name = 0;
  queue = replicate 20 (neg 1);
  semaphore = 2;
  cardinal_blocked = 0;
  mutex = 3;
  pid_creator = 5;
}

-- Semaphore 0 lets two pass; pid 6 waits for semaphore 1; 20 pids wait for semaphore 2.
abbrev pub system : System
system = record {
  world = record {
    sched = pair running blocked;
    mutexes = λ i. free_mutex;
    admin_mutex = 0;
    text = λ a. a ∷ [];
    junk = 77;
  };
  semaphores =
      update
        (update (λ i. plain) 1
          (record plain {
            name = 1;
            semaphore = neg 1;
            cardinal_blocked = 1;
            queue = 6 ∷ replicate 19 (neg 1);
          }))
        2
        (record plain {
          name = 2;
          semaphore = neg 20;
          cardinal_blocked = 20;
          queue = replicate 20 6;
        });
  semaphore_mutex = 4;
}

pid_five : current_pid system ≡ 5
unfolding get_current_pid
pid_five = refl

IsOpen-at_0 : IsOpen 0 system
IsOpen-at_0 = record { valid = refl; sound = omega arith; free = refl }

IsOpen-at_1 : IsOpen 1 system
IsOpen-at_1 = record { valid = refl; sound = omega arith; free = refl }

IsOpen-at_2 : IsOpen 2 system
IsOpen-at_2 = record { valid = refl; sound = omega arith; free = refl }

plain-IsCounting : IsCounting (system.semaphores 0)
plain-IsCounting = record { sized = refl; counted = refl; balance = inl (omega arith, refl) }

waited-IsCounting : IsCounting (system.semaphores 1)
waited-IsCounting = record { sized = refl; counted = refl; balance = inr refl }

full-IsCounting : IsCounting (system.semaphores 2)
full-IsCounting = record { sized = refl; counted = refl; balance = inr refl }

wait-blocks_example :
    (s' : System) × (wait 1 system ≡ yielded s' (λ later. done tt later))
    × Joined (current_pid system) (system.semaphores 1) (s'.semaphores 1)
    × ((other : ℕ)
        → state_of other s'.world.sched ≡ (
            if current_pid system == other
            then Option.map (λ _. blocked) (state_of (current_pid system) system.world.sched)
            else state_of other system.world.sched))
    × ((k : ℕ) → s'.world.mutexes k ≡ system.world.mutexes k)
wait-blocks_example =
    wait-blocks 1 system refl (IsOpen-at_1) waited-IsCounting (inr (omega arith)) (omega arith)
      (omega (arith, pid_five))

second_found : get_sem_index 0 system ≡ 0
unfolding get_sem_index strcmp
second_found = refl
