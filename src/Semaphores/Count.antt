-- ===== src/Semaphores/Count.antt =====
-- Kernel/semaphores.c: what the value of a semaphore counts.
use sistemas_operativos.Base.{◌+◌, ◌≤◌, ◌<◌, ◌^◌, ◌≡◌, ◌⊎◌, arith, length}
use sistemas_operativos.Mutex.Queue.{waiters, length-waiters}
use sistemas_operativos.Mutex.{max_blocked_queue_size}
use sistemas_operativos.Semaphores.{Semaphore}

-- A value that is not negative says how many may still pass, and then nobody waits; a negative
-- value says how many wait.
pub record IsCounting (x : Semaphore) : Type 0 where
  pub sized : length x.queue ≡ max_blocked_queue_size
  pub counted : x.cardinal_blocked ≡ length (waiters x.queue)
  pub balance :
      ((x.semaphore < 2 ^ 31) × (x.cardinal_blocked ≡ 0))
      ⊎ (x.semaphore + x.cardinal_blocked ≡ 2 ^ 32)

pub IsCounting-bound : (x : Semaphore) → IsCounting x → x.cardinal_blocked ≤ 20
IsCounting-bound x v = omega (arith, v.counted, v.sized, length-waiters x.queue)
