-- ===== src/Scheduler/State.antt =====
-- Kernel/scheduler.c, `changeProcessState`: whose state it sets.
use mathlib.Core.Option
use sistemas_operativos.Base.{
  ℕ, zero, suc, ◌≡◌, refl, List, [], ◌∷◌, arith, Option, none, some, if◌then◌else◌, ◌==◌,
  Bool-cases, inl, inr, ==_self, ==_iff, neg, Option-cases,
}
use sistemas_operativos.Scheduler.Ring.{walk, ring, addresses}
use sistemas_operativos.Scheduler.{
  Sched, Process, ProcessState, process_of, set_process, change_loop, change_process_state,
  get_current_pid,
}

-- The first of the processes with that pid.
abbrev pub find_pid : (ℕ → Process) → ℕ → List ℕ → Option ℕ
find_pid m pid [] = none
find_pid m pid (a ∷ l) = if (m a).pid == pid then some a else find_pid m pid l

-- The process with that pid in the ring, and its state.
abbrev pub lookup_pid : ℕ → Sched → Option ℕ
lookup_pid pid s = find_pid s.processes pid (addresses s.slots (ring s))

abbrev pub state_of : ℕ → Sched → Option ProcessState
state_of pid s = Option.map (λ (a : ℕ). (s.processes a).state) (lookup_pid pid s)

abbrev set_state_at : ℕ → ProcessState → Sched → Sched
set_state_at a st s = set_process a (record (s.processes a) { state = st }) s

-- What a search result means for the scheduler.
abbrev pub set_found : Option ℕ → ProcessState → Sched → Sched
set_found none st s = s
set_found (some a) st s = set_state_at a st s

change_loop-find :
    (n slot pid : ℕ) (st : ProcessState) (s : Sched)
    → change_loop n slot pid st s
      ≡ set_found (find_pid s.processes pid (addresses s.slots (walk s.slots n slot))) st s
unfolding change_loop
change_loop-find zero slot pid st s = refl
change_loop-find (suc n) slot pid st s = elim (Bool-cases ((process_of s slot).pid == pid)) [
  | inl hit ↦ rw hit
  | inr miss ↦ rw miss (change_loop-find n (s.slots slot).next pid st s)
]

-- `changeProcessState` sets the state of the first process of the ring with that pid, and changes
-- nothing else; without such a process it changes nothing.
pub change_process_state-find :
    (pid : ℕ) (st : ProcessState) (s : Sched)
    → change_process_state pid st s ≡ set_found (lookup_pid pid s) st s
unfolding change_process_state
change_process_state-find pid st s = change_loop-find s.cardinal_processes s.current pid st s

find_pid-pid :
    (m : ℕ → Process) (pid : ℕ) (l : List ℕ) (a : ℕ) → find_pid m pid l ≡ some a → (m a).pid ≡ pid
find_pid-pid m pid [] a h = cc
find_pid-pid m pid (x ∷ l) a h = ground (arith, find_pid-pid m pid l a)

-- A search reads pids only.
find_pid-ext :
    (m m' : ℕ → Process) (pid : ℕ) (l : List ℕ)
    → ((a : ℕ) → (m' a).pid ≡ (m a).pid)
    → find_pid m' pid l ≡ find_pid m pid l
find_pid-ext m m' pid [] h = refl
find_pid-ext m m' pid (a ∷ l) h = rw (h a, find_pid-ext m m' pid l h)

set_keeps_pid :
    (a : ℕ) (st : ProcessState) (s : Sched) (x : ℕ)
    → ((set_state_at a st s).processes x).pid ≡ (s.processes x).pid
set_keeps_pid a st s x = ground arith

lookup_pid-set :
    (a other : ℕ) (st : ProcessState) (s : Sched)
    → lookup_pid other (set_state_at a st s) ≡ lookup_pid other s
lookup_pid-set a other st s =
    find_pid-ext s.processes (set_state_at a st s).processes other (addresses s.slots (ring s))
      (set_keeps_pid a st s)

missing_case :
    (pid other : ℕ) (st : ProcessState) (s : Sched)
    → lookup_pid pid s ≡ none
    → state_of other s
      ≡ (if pid == other then Option.map (λ _. st) (state_of pid s) else state_of other s)
missing_case pid other st s e = elim (Bool-cases (pid == other)) [
  | inl same ↦ let q = (==_iff pid other).0 same in rw (same, ← q, e)
  | inr apart ↦ rw apart
]

found_case :
    (pid other : ℕ) (st : ProcessState) (s : Sched) (a : ℕ)
    → lookup_pid pid s ≡ some a
    → state_of other (set_state_at a st s)
      ≡ (if pid == other then Option.map (λ _. st) (state_of pid s) else state_of other s)
found_case pid other st s a e = elim (Bool-cases (pid == other)) [
  | inl same ↦
      let q = (==_iff pid other).0 same in rw (same, ← q, lookup_pid-set a pid st s, e, ==_self a)
  | inr apart ↦ elim (Option-cases (lookup_pid other s)) [
    | inl missing ↦ rw (apart, lookup_pid-set a other st s, missing)
    | inr (b, found) ↦
        rw (apart, lookup_pid-set a other st s, found)
          (ground (
            arith,
            find_pid-pid s.processes pid (addresses s.slots (ring s)) a e,
            find_pid-pid s.processes other (addresses s.slots (ring s)) b found,
          ))
  ]
]

-- Afterwards the process with that pid, if the ring has one, is in the new state; every other pid
-- finds the state that it had.
pub state_of-change_process_state :
    (pid other : ℕ) (st : ProcessState) (s : Sched)
    → state_of other (change_process_state pid st s)
      ≡ (if pid == other then Option.map (λ _. st) (state_of pid s) else state_of other s)
state_of-change_process_state pid other st s =
    rw (change_process_state-find pid st s) (cases (lookup_pid pid s) refl)
  where
    cases :
        (o : Option ℕ)
        → lookup_pid pid s ≡ o
        → state_of other (set_found o st s)
          ≡ (if pid == other then Option.map (λ _. st) (state_of pid s) else state_of other s)
    cases none e = missing_case pid other st s e
    cases (some a) e = found_case pid other st s a e

-- It does not change which process runs, nor whose pid that is.
pub get_current_pid-change_process_state :
    (pid : ℕ) (st : ProcessState) (s : Sched)
    → get_current_pid (change_process_state pid st s) ≡ get_current_pid s
unfolding get_current_pid
get_current_pid-change_process_state pid st s =
    rw (change_process_state-find pid st s) (cases (lookup_pid pid s))
  where
    cases :
        (o : Option ℕ)
        → (if (set_found o st s).current == 0
            then neg 1
            else (process_of (set_found o st s) (set_found o st s).current).pid)
          ≡ (if s.current == 0 then neg 1 else (process_of s s.current).pid)
    cases none = refl
    cases (some a) = rw (set_keeps_pid a st s (s.slots s.current).process)
