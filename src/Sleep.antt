-- ===== src/Sleep.antt =====
-- Kernel/interrupts.c: the table of sleeping processes. The clock that `timerTickHandlerC` also
-- shows is left out.
pub mod Tick
pub mod Wake
pub mod Tests
use sistemas_operativos.Base.{
  ℕ, zero, suc, ◌+◌, ◌-◌, Bool, if◌then◌else◌, ◌==◌, leb, ltb, update, add32,
}
use sistemas_operativos.Run.{Code, ◌>>=◌, ◌>>◌, pure, modify, read, give_up}
use sistemas_operativos.Scheduler.{Sched, ready, sleeping, get_current_pid, change_process_state}

abbrev pub max_listeners : ℕ
max_listeners = 50

pub record Timer : Type 0 where
  pub sched : Sched
  pub sleep_listeners : ℕ
  pub sleep_pids : ℕ → ℕ
  pub sleep_counter : ℕ → ℕ
  pub alarm_sleep : ℕ → ℕ

abbrev pub delete_sleep : ℕ → Timer → Timer
delete_sleep index t = if leb t.sleep_listeners index then t else record t {
  alarm_sleep = update t.alarm_sleep index (t.alarm_sleep (t.sleep_listeners - 1));
  sleep_pids = update t.sleep_pids index (t.sleep_pids (t.sleep_listeners - 1));
  sleep_counter = update t.sleep_counter index (t.sleep_counter (t.sleep_listeners - 1));
  sleep_listeners = t.sleep_listeners - 1;
}

unfoldable pub add_sleep : ℕ → ℕ → Timer → Timer
add_sleep pid interval t = if leb max_listeners t.sleep_listeners then t else record t {
  alarm_sleep = update t.alarm_sleep t.sleep_listeners interval;
  sleep_pids = update t.sleep_pids t.sleep_listeners pid;
  sleep_counter = update t.sleep_counter t.sleep_listeners 0;
  sleep_listeners = t.sleep_listeners + 1;
}

abbrev pub done_sleeping : ℕ → Timer → Timer
done_sleeping index t =
    delete_sleep index
      (record t { sched = change_process_state (t.sleep_pids index) ready t.sched })

abbrev pub count_tick : ℕ → Timer → Timer
count_tick j t = record t { sleep_counter = update t.sleep_counter j (add32 (t.sleep_counter j) 1) }

abbrev pub is_over : ℕ → Timer → Bool
is_over j t = t.sleep_counter j == t.alarm_sleep j

-- The loop of `timerTickHandlerC`, the rounds left first. An entry that is over is replaced by the
-- last one, and its place is looked at again.
pub tick_loop : ℕ → ℕ → Timer → Timer
tick_loop zero j t = t
tick_loop (suc n) j t =
    let t₁ = count_tick j t in
    let rest =
      tick_loop n (if is_over j t₁ then j else j + 1)
        (if is_over j t₁ then done_sleeping j t₁ else t₁) in
    if ltb j t.sleep_listeners then rest else t

-- Every round moves on or shortens the table, so as many rounds as entries are enough.
unfoldable pub timer_tick : Timer → Timer
unfolding tick_loop
timer_tick t = tick_loop t.sleep_listeners 0 t

unfoldable pub sleep : ℕ → Code Timer (Unit {0})
unfolding add_sleep
sleep time = do
  pid ← read (λ t. get_current_pid t.sched)
  modify (add_sleep pid time)
  modify (λ t. record t { sched = change_process_state pid sleeping t.sched })
  give_up
