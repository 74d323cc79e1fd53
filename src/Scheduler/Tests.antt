-- ===== src/Scheduler/Tests.antt =====
-- Two processes in a ring, and the scheduler's theorems there.
use mathlib.Core.Option
use sistemas_operativos.Base.{ℕ, ◌≡◌, ◌<◌, ◌⊎◌, refl, arith, update, some, none, true, false}
use sistemas_operativos.Buddy.{Buddy}
use sistemas_operativos.Scheduler.State.{
  state_of, set_found, change_process_state-find, state_of-change_process_state,
}
use sistemas_operativos.Scheduler.Turns.{
  turn, waits, OnlyCurrentRuns, schedule_lem, schedule-one_running, schedule-nearer,
}
use sistemas_operativos.Scheduler.{
  Sched, Process, ProcessState, running, ready, blocked, process_of, begin_turn, yield_turn,
  schedule, change_process_state,
}

abbrev pub process : ℕ → ProcessState → Process
process pid st = record {
  pid = pid;
  state = st;
  active_thread = 0;
  number_of_threads = 1;
  thread = λ i. 0x300;
}

abbrev pub no_heap : Buddy
no_heap = record { occupied = λ k. 0; base = λ k. 0; heap_level = 0 }

-- Slot 0x100 holds process 0 (pid 5), slot 0x180 process 1 (pid 6).
abbrev pub pair : ProcessState → ProcessState → Sched
pair first second = record {
  current = 0x100;
  cardinal_processes = 2;
  slots =
      update (λ a. record { next = 0x100; process = 0x200 }) 0x100
        (record { next = 0x180; process = 0x280 });
  processes = update (λ a. process 6 second) 0x280 (process 5 first);
  threads = λ a. record { user_stack = 0; kernel_stack = 0; entry_point = 0 };
  heap = no_heap;
}

change_process_state-find_example :
    change_process_state 6 blocked (pair running ready)
    ≡ set_found (some 0x200) blocked (pair running ready)
change_process_state-find_example = change_process_state-find 6 blocked (pair running ready)

state_of-change_process_state_example :
    state_of 5 (change_process_state 6 blocked (pair running ready)) ≡ some running
state_of-change_process_state_example =
    state_of-change_process_state 6 5 blocked (pair running ready)

turn_of_second : Option.map (λ (s : Sched). s.current) (schedule (pair running ready)) ≡ some 0x180
unfolding schedule
turn_of_second = refl

schedule_lem_example :
    ((schedule (pair running ready) ≡ none)
      × ((j : ℕ) → j < 2 → waits (pair running ready) (turn (pair running ready) j) ≡ false))
    ⊎ ((k : ℕ) × (k < 2)
        × (waits (pair running ready) (turn (pair running ready) k) ≡ true)
        × ((j : ℕ) → j < k → waits (pair running ready) (turn (pair running ready) j) ≡ false)
        × (schedule (pair running ready)
            ≡ some (begin_turn (turn (pair running ready) k) (yield_turn (pair running ready)))))
schedule_lem_example = schedule_lem (pair running ready)

-- One process in all of memory runs, and its state is the only one.
abbrev alone : Sched
alone = record (pair running ready) {
  processes = update (λ a. process 6 ready) 0x280 (process 5 running);
}

alone-only : OnlyCurrentRuns alone
alone-only x h = ground arith

schedule-one_running_example :
    OnlyCurrentRuns (begin_turn 0x180 (yield_turn alone))
    × ((process_of (begin_turn 0x180 (yield_turn alone)) 0x180).state ≡ running)
unfolding begin_turn yield_turn schedule
schedule-one_running_example =
    schedule-one_running alone {s' = begin_turn 0x180 (yield_turn alone)} alone-only refl

schedule-nearer_example :
    (0x180 ≡ turn alone 0)
    ⊎ ((d' : ℕ) × (d' < 0)
        × (turn (begin_turn 0x180 (yield_turn alone)) d' ≡ turn alone 0)
        × (waits
              (begin_turn 0x180 (yield_turn alone))
              (turn (begin_turn 0x180 (yield_turn alone)) d')
            ≡ true))
unfolding begin_turn yield_turn schedule
schedule-nearer_example =
    schedule-nearer 0 alone {s' = begin_turn 0x180 (yield_turn alone)} (omega arith) refl
      (λ k h. absurd (omega arith)) refl
