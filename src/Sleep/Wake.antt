-- ===== src/Sleep/Wake.antt =====
-- Kernel/interrupts.c: who falls asleep, and who is woken.
use mathlib.Core.Option
use sistemas_operativos.Base.{
  ℕ, zero, suc, ◌+◌, ◌-◌, ◌<◌, ◌≤◌, ◌≡◌, ◌↔◌, ◌⊎◌, ◌∙◌, refl, sym, ap, arith, true, false, Option,
  none, some, Bool-cases, inl, inr, if◌then◌else◌, ◌==◌, ltb, leb, add32, dec_lt, ==_self,
}
use sistemas_operativos.Run.{done, yielded}
use sistemas_operativos.Scheduler.{
  Sched, ProcessState, ready, sleeping, get_current_pid, change_process_state,
}
use sistemas_operativos.Scheduler.State.{state_of, state_of-change_process_state}
use sistemas_operativos.Sleep.Tick.{
  Sleeper, sleeper, aged, IsListed, after_over, sleeper-over, sleep_listeners-over,
}
use sistemas_operativos.Sleep.{
  Timer, count_tick, is_over, tick_loop, timer_tick, add_sleep, sleep, max_listeners,
}

abbrev wake : Option ProcessState → Option ProcessState
wake o = Option.map (λ _. ready) o

wake-wake : (o : Option ProcessState) → wake (wake o) ≡ wake o
wake-wake none = refl
wake-wake (some st) = refl

-- Waking somebody does not change what waking `pid` gives.
wake-change_process_state :
    (pid other : ℕ) (s : Sched)
    → wake (state_of pid (change_process_state other ready s)) ≡ wake (state_of pid s)
wake-change_process_state pid other s = elim (Bool-cases (other == pid)) [
  | inl same ↦
      let e : other ≡ pid = ground arith in
      rw (state_of-change_process_state other pid ready s, same, e) (wake-wake (state_of pid s))
  | inr apart ↦ rw (state_of-change_process_state other pid ready s, apart)
]

sched-over :
    (j : ℕ) (t : Timer)
    → j < t.sleep_listeners
    → (after_over j t).sched ≡ change_process_state (t.sleep_pids j) ready t.sched
sched-over j t hj = let inside : leb t.sleep_listeners j ≡ false = ground arith in rw inside

-- One round of the loop.
abbrev round : ℕ → Timer → Timer
round j t = if is_over j (count_tick j t) then after_over j t else count_tick j t

wake-round :
    (pid j : ℕ) (t : Timer)
    → j < t.sleep_listeners
    → wake (state_of pid (round j t).sched) ≡ wake (state_of pid t.sched)
wake-round pid j t hj = elim (Bool-cases (is_over j (count_tick j t))) [
  | inl over ↦ rw (over, sched-over j t hj) (wake-change_process_state pid (t.sleep_pids j) t.sched)
  | inr young ↦ rw young
]

-- Ready, or not there.
abbrev IsAwake : ℕ → Sched → Type 0
IsAwake pid s = state_of pid s ≡ wake (state_of pid s)

change_process_state-IsAwake :
    (pid other : ℕ) (s : Sched)
    → IsAwake pid s ⊎ (other ≡ pid)
    → IsAwake pid (change_process_state other ready s)
change_process_state-IsAwake pid other s awake = state ∙ sym (wake-change_process_state pid other s)
  where
    state : state_of pid (change_process_state other ready s) ≡ wake (state_of pid s)
    state = elim (Bool-cases (other == pid)) [
      | inl same ↦
          let e : other ≡ pid = ground arith in
          rw (state_of-change_process_state other pid ready s, same, e)
      | inr apart ↦ elim awake [
        | inl before ↦ rw (state_of-change_process_state other pid ready s, apart) before
        | inr e ↦ absurd (ground arith)
      ]
    ]

round-IsAwake :
    (pid j : ℕ) (t : Timer)
    → j < t.sleep_listeners
    → IsAwake pid t.sched ⊎ ((t.sleep_pids j ≡ pid) × (is_over j (count_tick j t) ≡ true))
    → IsAwake pid (round j t).sched
round-IsAwake pid j t hj awake = elim (Bool-cases (is_over j (count_tick j t))) [
  | inl over ↦
      rw (over, sched-over j t hj)
        (change_process_state-IsAwake pid (t.sleep_pids j) t.sched
          (elim awake [ inl before ↦ inl before | inr (e, _) ↦ inr e ]))
  | inr young ↦ rw young (elim awake [ inl before ↦ before | inr (_, over) ↦ cc ])
]

tick_loop-IsAwake :
    (n j pid : ℕ) (t : Timer)
    → IsAwake pid t.sched
    → state_of pid (tick_loop n j t).sched ≡ wake (state_of pid t.sched)
unfolding tick_loop
tick_loop-IsAwake zero j pid t awake = awake
tick_loop-IsAwake (suc n) j pid t awake = elim (Bool-cases (ltb j t.sleep_listeners)) [
  | inl goes ↦
      let hj : j < t.sleep_listeners = ground arith in
      rw goes (
        tick_loop-IsAwake n (if is_over j (count_tick j t) then j else j + 1) pid (round j t)
          (round-IsAwake pid j t hj (inl awake))
        ∙ wake-round pid j t hj)
  | inr stops ↦ rw stops awake
]

-- An entry from `j` on whose time is over and that is `pid`'s.
abbrev IsDue : ℕ → ℕ → Timer → Type 0
IsDue pid j t =
    (i : ℕ) × (j ≤ i)
    × (i < t.sleep_listeners)
    × ((sleeper t i).pid ≡ pid)
    × (aged (sleeper t i) ≡ none)

aged-none : (j : ℕ) (t : Timer) → aged (sleeper t j) ≡ none → is_over j (count_tick j t) ≡ true
aged-none j t e = elim (Bool-cases (add32 (t.sleep_counter j) 1 == t.alarm_sleep j)) [
  | inl over ↦ rw (==_self j) over
  | inr young ↦
      let wrong : aged (sleeper t j)
          ≡ some (record (sleeper t j) { slept = add32 (t.sleep_counter j) 1 }) =
        rw young in
      absurd (cc)
]

IsDue-over :
    (pid j : ℕ) (t : Timer) (i : ℕ)
    → j < i
    → i < t.sleep_listeners
    → (sleeper t i).pid ≡ pid
    → aged (sleeper t i) ≡ none
    → IsDue pid j (after_over j t)
IsDue-over pid j t i after lt mine over = elim (dec_lt i (t.sleep_listeners - 1)) [
  | yes inside ↦
      let apart : (j == i) ≡ false = ground arith in
      let same : sleeper (after_over j t) i ≡ sleeper t i =
        sleeper-over j i t (omega arith) (omega arith) ∙ rw apart in
      (
        i,
        omega arith,
        omega (arith, shorter),
        ap (λ (x : Sleeper). x.pid) same ∙ mine,
        ap aged same ∙ over,
      )
  | no outside ↦
      let last : t.sleep_listeners - 1 ≡ i = omega arith in
      let same : sleeper (after_over j t) j ≡ sleeper t i =
        sleeper-over j j t (omega arith) (omega arith) ∙ rw (==_self j, last) in
      (
        j,
        omega arith,
        omega (arith, shorter),
        ap (λ (x : Sleeper). x.pid) same ∙ mine,
        ap aged same ∙ over,
      )
]
  where
    shorter : (after_over j t).sleep_listeners ≡ t.sleep_listeners - 1
    shorter = sleep_listeners-over j t (omega arith)

tick_loop-IsDue :
    (n j pid : ℕ) (t : Timer)
    → j + n ≡ t.sleep_listeners
    → IsDue pid j t
    → state_of pid (tick_loop n j t).sched ≡ wake (state_of pid t.sched)
unfolding tick_loop
tick_loop-IsDue zero j pid t e (i, ge, lt, mine, over) = absurd (omega arith)
tick_loop-IsDue (suc n) j pid t e (i, ge, lt, mine, over) = rw goes (elim (Bool-cases (j == i)) [
  | inl same ↦
      let here : i ≡ j = ground arith in
      let due : is_over j (count_tick j t) ≡ true =
        aged-none j t (ap (λ (k : ℕ). aged (sleeper t k)) (sym here) ∙ over) in
      tick_loop-IsAwake n (if is_over j (count_tick j t) then j else j + 1) pid (round j t)
        (round-IsAwake pid j t hj (inr (ap t.sleep_pids (sym here) ∙ mine, due)))
      ∙ wake-round pid j t hj
  | inr apart ↦ elim (Bool-cases (is_over j (count_tick j t))) [
    | inl gone ↦
        let ih =
          tick_loop-IsDue n j pid (after_over j t) (omega (arith, sleep_listeners-over j t hj))
            (IsDue-over pid j t i (ground arith) lt mine over) in
        rw gone (
          ih
          ∙ ap (λ (s : Sched). wake (state_of pid s)) (sched-over j t hj)
          ∙ wake-change_process_state pid (t.sleep_pids j) t.sched)
    | inr young ↦ rw young (
        tick_loop-IsDue n (j + 1) pid (count_tick j t) (omega arith)
          (i, ground arith, lt, mine, rw apart over))
  ]
])
  where
    hj : j < t.sleep_listeners
    hj = omega arith

    goes : ltb j t.sleep_listeners ≡ true
    goes = ground arith

-- A tick of the timer makes every listed pid whose time is over ready.
pub timer_tick-wakes :
    (t : Timer) (i : ℕ)
    → i < t.sleep_listeners
    → aged (sleeper t i) ≡ none
    → state_of (t.sleep_pids i) (timer_tick t).sched
      ≡ Option.map (λ _. ready) (state_of (t.sleep_pids i) t.sched)
unfolding timer_tick
timer_tick-wakes t i lt over =
    tick_loop-IsDue t.sleep_listeners 0 (t.sleep_pids i) t (omega arith)
      (i, omega arith, lt, refl, over)

-- With room in the table, a caller of `sleep` is marked as sleeping, gives up the processor, and is
-- listed for that many ticks; the others stay listed.
sleep-IsListed :
    (time : ℕ) (t : Timer)
    → t.sleep_listeners < max_listeners
    → (t' : Timer) × (sleep time t ≡ yielded t' (λ later. done tt later))
      × (state_of (get_current_pid t.sched) t'.sched
          ≡ Option.map (λ _. sleeping) (state_of (get_current_pid t.sched) t.sched))
      × IsListed (record { pid = get_current_pid t.sched; slept = 0; wanted = time }) t'
      × ((x : Sleeper) → IsListed x t → IsListed x t')
unfolding sleep add_sleep
sleep-IsListed time t room = (
  record (add_sleep pid time t) { sched = change_process_state pid sleeping t.sched },
  rw fits,
  state_of-change_process_state pid pid sleeping t.sched ∙ rw (==_self pid),
  rw fits (t.sleep_listeners, omega arith, rw (==_self t.sleep_listeners)),
  λ x p.
      let (i, lt, e) = p in
      let apart : (t.sleep_listeners == i) ≡ false = ground arith in
      rw fits (i, omega arith, rw apart e),
)
  where
    pid : ℕ
    pid = get_current_pid t.sched

    fits : leb max_listeners t.sleep_listeners ≡ false
    fits = ground arith

-- With a full table, a caller of `sleep` is marked as sleeping and gives up the processor, but the
-- table is as before, so that no tick looks for its caller.
sleep_full :
    (time : ℕ) (t : Timer)
    → t.sleep_listeners ≡ max_listeners
    → (t' : Timer) × (sleep time t ≡ yielded t' (λ later. done tt later))
      × (state_of (get_current_pid t.sched) t'.sched
          ≡ Option.map (λ _. sleeping) (state_of (get_current_pid t.sched) t.sched))
      × ((x : Sleeper) → IsListed x t' ↔ IsListed x t)
unfolding sleep add_sleep
sleep_full time t full = (
  record t { sched = change_process_state pid sleeping t.sched },
  rw over,
  state_of-change_process_state pid pid sleeping t.sched ∙ rw (==_self pid),
  λ x. (λ p. p, λ p. p),
)
  where
    pid : ℕ
    pid = get_current_pid t.sched

    over : leb max_listeners t.sleep_listeners ≡ true
    over = ground arith
