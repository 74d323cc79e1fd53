-- ===== src/Semaphores/Signal.antt =====
-- Kernel/semaphores.c, `signal`: who is woken.
use mathlib.Core.Option
use sistemas_operativos.Base.{
  ℕ, ◌+◌, ◌≤◌, ◌<◌, ◌^◌, ◌≡◌, ◌⊎◌, refl, ap, ◌∙◌, arith, List, ◌∷◌, some, inl, inr, true, false,
  length, if◌then◌else◌, ◌==◌, ==_self, dec_lt, add32, sub32, ltb, ◌&&◌, non_negative,
}
use sistemas_operativos.Scheduler.{ready}
use sistemas_operativos.Scheduler.State.{state_of, state_of-change_process_state}
use sistemas_operativos.Mutex.Queue.{waiters, first_blocked_lem}
use sistemas_operativos.Mutex.{set_state, first_blocked}
use sistemas_operativos.Semaphores.{
  Semaphore, System, set_semaphore, on_world, is_valid_semaphore, unblock_process_semaphore, signal,
}
use sistemas_operativos.Semaphores.Count.{IsCounting, IsCounting-bound}

-- What `signal` does to a semaphore that others wait for.
pub record Woken (pid : ℕ) (x y : Semaphore) : Type 0 where
  pub first : waiters x.queue ≡ pid ∷ waiters y.queue
  pub value : y.semaphore ≡ add32 x.semaphore 1
  pub counting : IsCounting y

unblock_process_semaphore_lem :
    (i : ℕ) (s : System) (pid : ℕ) (ys : List ℕ)
    → first_blocked (s.semaphores i).queue ≡ some (pid, ys)
    → unblock_process_semaphore i s
      ≡ set_semaphore i (record (s.semaphores i) { queue = ys }) (on_world (set_state pid ready) s)
unfolding unblock_process_semaphore
unblock_process_semaphore_lem i s pid ys e = rw (e, unblock_process_semaphore)

balance-signal :
    (value count : ℕ)
    → 0 < count
    → count ≤ 20
    → value + count ≡ 2 ^ 32
    → ((add32 value 1 < 2 ^ 31) × (sub32 count 1 ≡ 0)) ⊎ (add32 value 1 + sub32 count 1 ≡ 2 ^ 32)
balance-signal value count some_wait bound total = elim (dec_lt 1 count) [
  | yes more ↦ inr (omega arith)
  | no one ↦ inl (omega arith, omega arith)
]

-- Signalling a semaphore that pids wait for makes the first of them ready, takes it off the queue
-- and counts one more; no other pid's state changes.
signal-wakes :
    (i : ℕ) (s : System)
    → is_valid_semaphore i s ≡ true
    → IsCounting (s.semaphores i)
    → 0 < (s.semaphores i).cardinal_blocked
    → (pid : ℕ) × Woken pid (s.semaphores i) ((signal i s).semaphores i)
      × ((other : ℕ)
          → state_of other (signal i s).world.sched ≡ (
              if pid == other
              then Option.map (λ _. ready) (state_of pid s.world.sched)
              else state_of other s.world.sched))
unfolding signal
signal-wakes i s valid v some_wait = elim (first_blocked_lem (s.semaphores i).queue) [
  | inl (_, nobody) ↦ absurd (omega (arith, v.counted, ap length nobody))
  | inr (pid, ys, e, f, g) ↦ (
    pid,
    rw (valid, counts, unblock_process_semaphore_lem i s pid ys e, ==_self i)
        (record {
          first = f;
          value = refl;
          counting = record {
            sized = g ∙ v.sized;
            counted = omega (arith, v.counted, ap length f, bound);
            balance = elim v.balance [
              | inl (_, nobody) ↦ absurd (omega arith)
              | inr total ↦ balance-signal _ _ some_wait bound total
            ];
          };
        }),
    λ other.
        rw (valid, counts, unblock_process_semaphore_lem i s pid ys e)
          (state_of-change_process_state pid other ready s.world.sched),
  )
]
  where
    bound : (s.semaphores i).cardinal_blocked ≤ 20
    bound = IsCounting-bound (s.semaphores i) v

    counts :
        non_negative (s.semaphores i).cardinal_blocked && ltb 0 (s.semaphores i).cardinal_blocked
        ≡ true
    counts = ground (arith, bound)

-- Signalling a semaphore that nobody waits for only counts one more, up to the largest `int`.
signal-counts :
    (i : ℕ) (s : System)
    → is_valid_semaphore i s ≡ true
    → IsCounting (s.semaphores i)
    → (s.semaphores i).cardinal_blocked ≡ 0
    → (s.semaphores i).semaphore + 1 < 2 ^ 31
    → ((signal i s).world ≡ s.world)
      × IsCounting ((signal i s).semaphores i)
      × (((signal i s).semaphores i).semaphore ≡ (s.semaphores i).semaphore + 1)
unfolding signal
signal-counts i s valid v nobody small =
    rw (valid, quiet)
      (
        refl,
        rw (==_self i)
            (record { sized = v.sized; counted = v.counted; balance = inl (omega arith, nobody) }),
        rw (==_self i) (omega arith),
      )
  where
    quiet :
        non_negative (s.semaphores i).cardinal_blocked && ltb 0 (s.semaphores i).cardinal_blocked
        ≡ false
    quiet = ground arith
