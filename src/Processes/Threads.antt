-- ===== src/Processes/Threads.antt =====
-- Kernel/scheduler.c, `nextThread`: the threads of a process take turns.
use sistemas_operativos.Base.{
  ℕ, zero, suc, ◌+◌, ◌%◌, ◌≤◌, ◌<◌, ◌≡◌, ◌≢◌, arith, false, ◌==◌, ==_ne, add32, some, dec_lt,
}
use sistemas_operativos.Scheduler.{Sched, Process, process_of, null, max_threads}
use sistemas_operativos.Processes.{next_thread, next_thread_loop}

-- The thread `i` places behind the active one.
abbrev pub place : Process → ℕ → ℕ
place p i = (p.active_thread + i) % max_threads

next_thread_loop-nearest :
    (fuel i k : ℕ) (p : Process)
    → p.active_thread < max_threads
    → i ≤ k
    → k ≤ max_threads
    → k < i + fuel
    → p.thread (place p k) ≢ null
    → ((j : ℕ) → i ≤ j → j < k → p.thread (place p j) ≡ null)
    → next_thread_loop fuel i p ≡ some (place p k)
unfolding next_thread_loop
next_thread_loop-nearest zero i k p active le top enough there gaps = absurd (omega arith)
next_thread_loop-nearest (suc fuel) i k p active le top enough there gaps =
    let small : add32 p.active_thread i ≡ p.active_thread + i = omega arith in
    elim (dec_lt i k) [
      | yes before ↦
          let gap : p.thread (place p i) ≡ null = gaps i (omega arith) before in
          let next : add32 i 1 ≡ i + 1 = omega arith in
          let ih =
            next_thread_loop-nearest fuel (i + 1) k p active (omega arith) top (omega arith) there
              (λ j le lt. gaps j (omega arith) lt) in
          rw (small, gap, next) ih
      | no here ↦
          let same : i ≡ k = omega arith in
          let some_thread : (p.thread (place p k) == null) ≡ false =
            ==_ne (p.thread (place p k)) null there in
          rw (small, same, some_thread)
    ]

-- `nextThread` ends within ten rounds, with the nearest thread behind the active one, if the
-- process has one at that place and none between them. The active thread comes again when it is the
-- only one.
pub next_thread-nearest :
    (k : ℕ) (s : Sched)
    → (process_of s s.current).active_thread < max_threads
    → 0 < k
    → k ≤ max_threads
    → (process_of s s.current).thread (place (process_of s s.current) k) ≢ null
    → ((j : ℕ)
        → 0 < j
        → j < k
        → (process_of s s.current).thread (place (process_of s s.current) j) ≡ null)
    → next_thread max_threads s ≡ some (place (process_of s s.current) k)
unfolding next_thread
next_thread-nearest k s active low top there gaps =
    next_thread_loop-nearest max_threads 1 k (process_of s s.current) active (omega arith) top
      (omega arith) there (λ j le lt. gaps j (omega arith) lt)
