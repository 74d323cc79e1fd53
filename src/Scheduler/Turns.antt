-- ===== src/Scheduler/Turns.antt =====
-- Kernel/scheduler.c, `schedule`: which process runs next.
use sistemas_operativos.Base.{
  ℕ, zero, suc, ◌+◌, ◌-◌, ◌≡◌, ◌≢◌, ◌<◌, ◌⊎◌, refl, ap, arith, none, some, Bool, true, false,
  Bool-cases, inl, inr, sym, ◌∙◌, dec_lt, ℕ_discrete,
}
use sistemas_operativos.Scheduler.Ring.{jump}
use sistemas_operativos.Scheduler.{
  Slot, Sched, running, process_of, is_ready, find_ready, yield_turn, begin_turn, schedule,
}

-- The slot whose turn comes `j` places after the next one.
abbrev pub turn : Sched → ℕ → ℕ
turn s j = jump s.slots j (s.slots s.current).next

-- The process in the slot could run once the current process has given up its turn.
abbrev pub waits : Sched → ℕ → Bool
waits s slot = is_ready (process_of (yield_turn s) slot).state

find_ready_lem :
    (n a : ℕ) (s : Sched)
    → ((find_ready n a s ≡ none)
        × ((j : ℕ) → j < n → is_ready (process_of s (jump s.slots j a)).state ≡ false))
      ⊎ ((k : ℕ) × (k < n)
          × (is_ready (process_of s (jump s.slots k a)).state ≡ true)
          × ((j : ℕ) → j < k → is_ready (process_of s (jump s.slots j a)).state ≡ false)
          × (find_ready n a s ≡ some (jump s.slots k a)))
unfolding find_ready
find_ready_lem zero a s = inl (refl, λ j h. absurd (omega arith))
find_ready_lem (suc n) a s = elim (Bool-cases (is_ready (process_of s a).state)) [
  | inl hit ↦ inr (0, omega arith, hit, λ j h. absurd (omega arith), rw hit)
  | inr miss ↦ elim (find_ready_lem n (s.slots a).next s) [
    | inl (e, others) ↦ inl (rw (miss, e), all_below miss others)
    | inr (k, lt, found, before, e) ↦
        inr (suc k, omega arith, found, all_below miss before, rw (miss, e))
  ]
]
  where
    all_below :
        {m : ℕ}
        → is_ready (process_of s a).state ≡ false
        → ((j : ℕ)
            → j < m
            → is_ready (process_of s (jump s.slots j (s.slots a).next)).state ≡ false)
        → (j : ℕ) → j < suc m
        → is_ready (process_of s (jump s.slots j a)).state ≡ false
    all_below first rest zero h = first
    all_below first rest (suc j) h = rest j (omega arith)

-- The next process to run is the first one along the ring, from the slot behind the current one
-- and once round, that is ready when a running current process has become ready; it is made
-- current and running. Only if there is none does the search not end.
pub schedule_lem :
    (s : Sched)
    → ((schedule s ≡ none) × ((j : ℕ) → j < s.cardinal_processes → waits s (turn s j) ≡ false))
      ⊎ ((k : ℕ) × (k < s.cardinal_processes)
          × (waits s (turn s k) ≡ true)
          × ((j : ℕ) → j < k → waits s (turn s j) ≡ false)
          × (schedule s ≡ some (begin_turn (turn s k) (yield_turn s))))
unfolding schedule
schedule_lem s =
    elim (find_ready_lem s.cardinal_processes (s.slots s.current).next (yield_turn s)) [
      | inl (e, others) ↦ inl (rw (e, schedule), others)
      | inr (k, lt, found, before, e) ↦ inr (k, lt, found, before, rw (e, schedule))
    ]

-- No process but the current one is marked running.
abbrev pub OnlyCurrentRuns : Sched → Type 0
OnlyCurrentRuns s = (x : ℕ) → (s.processes x).state ≡ running → x ≡ (s.slots s.current).process

turn-one_running :
    (slot : ℕ) (s : Sched)
    → OnlyCurrentRuns s
    → let s' = begin_turn slot (yield_turn s) in
      OnlyCurrentRuns s' × ((process_of s' s'.current).state ≡ running)
unfolding begin_turn yield_turn
turn-one_running slot s only = (λ x h. ground (arith, only x), ground arith)

-- If only the current process runs, the same holds after a change of turns, and it does run.
pub schedule-one_running :
    (s : Sched) {s' : Sched}
    → OnlyCurrentRuns s
    → schedule s ≡ some s'
    → OnlyCurrentRuns s' × ((process_of s' s'.current).state ≡ running)
schedule-one_running s {s'} only e = elim (schedule_lem s) [
  | inl (stuck, _) ↦ cc
  | inr (k, _, _, _, f) ↦
      let q : begin_turn (turn s k) (yield_turn s) ≡ s' = cc in
      rw (← q) (turn-one_running (turn s k) s only)
]

jump-add : (m : ℕ → Slot) (j k a : ℕ) → jump m (k + j) a ≡ jump m j (jump m k a)
jump-add m j zero a = let e : 0 + j ≡ j = omega arith in rw e
jump-add m j (suc k) a =
    let e : suc k + j ≡ suc (k + j) = omega arith in rw e (jump-add m j k (m a).next)

jump-suc : (m : ℕ → Slot) (k a : ℕ) → jump m (suc k) a ≡ (m (jump m k a)).next
jump-suc m zero a = refl
jump-suc m (suc k) a = jump-suc m k (m a).next

still_waits :
    (slot other : ℕ) (s : Sched)
    → waits s other ≡ true
    → (s.slots slot).process ≢ (s.slots other).process
    → waits (begin_turn slot (yield_turn s)) other ≡ true
unfolding begin_turn yield_turn
still_waits slot other s w apart = ground arith

begin_turn-turn :
    (slot j : ℕ) (s : Sched)
    → turn (begin_turn slot (yield_turn s)) j ≡ jump s.slots j (s.slots slot).next
unfolding begin_turn yield_turn
begin_turn-turn slot j s = refl

nearer_turn :
    (d k : ℕ) (s : Sched)
    → waits s (turn s d) ≡ true
    → ((k : ℕ) → k < d → (s.slots (turn s k)).process ≢ (s.slots (turn s d)).process)
    → waits s (turn s k) ≡ true
    → ((j : ℕ) → j < k → waits s (turn s j) ≡ false)
    → let s' = begin_turn (turn s k) (yield_turn s) in
      (s'.current ≡ turn s d)
      ⊎ ((d' : ℕ) × (d' < d) × (turn s' d' ≡ turn s d) × (waits s' (turn s' d') ≡ true))
unfolding begin_turn
nearer_turn d k s w apart found before = elim (dec_lt k d) [
  | yes nearer ↦ inr (
    d - k - 1,
    omega arith,
    ahead nearer,
    rw (ahead nearer) (still_waits (turn s k) (turn s d) s w (apart k nearer)),
  )
  | no far ↦ elim (ℕ_discrete d k) [
    | yes here ↦ inl (rw here)
    | no past ↦ absurd (ground (arith, before d))
  ]
]
  where
    total : k < d → suc k + (d - k - 1) ≡ d
    total h = omega arith

    ahead : k < d → turn (begin_turn (turn s k) (yield_turn s)) (d - k - 1) ≡ turn s d
    ahead h =
        begin_turn-turn (turn s k) (d - k - 1) s
        ∙ ap (jump s.slots (d - k - 1)) (sym (jump-suc s.slots k (s.slots s.current).next))
        ∙ sym (jump-add s.slots (d - k - 1) (suc k) (s.slots s.current).next)
        ∙ ap (λ n. jump s.slots n (s.slots s.current).next) (total h)

-- A process that waits, `d` turns away, either runs next or is fewer turns away and still waits,
-- if no slot before it is another slot of the same process.
pub schedule-nearer :
    (d : ℕ) (s : Sched) {s' : Sched}
    → d < s.cardinal_processes
    → waits s (turn s d) ≡ true
    → ((k : ℕ) → k < d → (s.slots (turn s k)).process ≢ (s.slots (turn s d)).process)
    → schedule s ≡ some s'
    → (s'.current ≡ turn s d)
      ⊎ ((d' : ℕ) × (d' < d) × (turn s' d' ≡ turn s d) × (waits s' (turn s' d') ≡ true))
schedule-nearer d s {s'} lt w apart e = elim (schedule_lem s) [
  | inl (stuck, _) ↦ cc
  | inr (k, _, found, before, f) ↦
      let q : begin_turn (turn s k) (yield_turn s) ≡ s' = cc in
      rw (← q) (nearer_turn d k s w apart found before)
]
