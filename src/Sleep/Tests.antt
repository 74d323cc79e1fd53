-- ===== src/Sleep/Tests.antt =====
-- Two sleepers, and the theorems there.
use mathlib.Core.Option
use sistemas_operativos.Base.{ℕ, ◌<◌, ◌≡◌, ◌↔◌, refl, arith, update, some}
use sistemas_operativos.Scheduler.{running, sleeping, ready}
use sistemas_operativos.Scheduler.State.{state_of}
use sistemas_operativos.Scheduler.Tests.{pair}
use sistemas_operativos.Sleep.{Timer, timer_tick}
use sistemas_operativos.Sleep.Tick.{Sleeper, sleeper, aged, IsListed, timer_tick-IsListed}
use sistemas_operativos.Sleep.Wake.{timer_tick-wakes}

-- The time of pid 6 is over at the next tick; pid 7 sleeps on.
abbrev sleepers : Timer
sleepers = record {
  sched = pair running sleeping;
  sleep_listeners = 2;
  sleep_pids = update (λ i. 7) 0 6;
  sleep_counter = λ i. 4;
  alarm_sleep = update (λ i. 9) 0 5;
}

abbrev crowd : Timer
crowd = record sleepers { sleep_listeners = 50 }

abbrev seven : Sleeper
seven = record { pid = 7; slept = 5; wanted = 9 }

timer_tick-IsListed_example :
    IsListed seven (timer_tick sleepers)
    ↔ ((i : ℕ) × (i < sleepers.sleep_listeners) × (aged (sleeper sleepers i) ≡ some seven))
timer_tick-IsListed_example = timer_tick-IsListed sleepers seven

timer_tick-wakes_example :
    state_of (sleepers.sleep_pids 0) (timer_tick sleepers).sched
    ≡ Option.map (λ _. ready) (state_of (sleepers.sleep_pids 0) sleepers.sched)
timer_tick-wakes_example = timer_tick-wakes sleepers 0 (omega arith) refl
