-- ===== src/Philosophers/Pointers.antt =====
-- Userland/dummy/dummy.c, `createThreads`: the semaphores that the philosophers are given.
use sistemas_operativos.Base.{
  ℕ, ◌+◌, ◌*◌, ◌/◌, ◌%◌, ◌^◌, ◌<◌, ◌≤◌, ◌≡◌, refl, ap, List, [], ◌∷◌, ◌==◌, ==_self, arith, sym,
  ◌∙◌, false, true, Bool, if◌then◌else◌, ◌&&◌, not, update, some,
}
use sistemas_operativos.Semaphores.{max_semaphores}
use sistemas_operativos.Philosophers.{
  Table, Place, Shared, outside, waits, eats, sems_of, at_place, signal, say, set_state, hungry,
  eating, is_eating, is_hungry, takes_fork, take_fork, test_p, turn, run,
}
use sistemas_operativos.Philosophers.Forks.{HasSemaphores}

-- Half of a small pointer is 0.
sems_of_zero :
    (semaphores : ℕ → ℕ) (k : ℕ) → semaphores k < 2 ^ 32 → sems_of semaphores (2 * k + 1) ≡ 0
sems_of_zero semaphores k small =
    let odd : ((2 * k + 1) % 2 == 0) ≡ false = ground arith in
    let half : (2 * k + 1) / 2 ≡ k = omega arith in rw (odd, half) (omega (arith, small))

-- The array of pointers, taken for an array of numbers, gives the second and the fourth philosopher
-- the same number, 0, if the pointers are below 2 ^ 32: they do not have semaphores of their own.
pub sems_of_shared :
    (semaphores : ℕ → ℕ) (t : Table)
    → semaphores 0 < 2 ^ 32
    → semaphores 1 < 2 ^ 32
    → (sems_of semaphores 1 ≡ 0)
      × (sems_of semaphores 3 ≡ 0)
      × ¬ HasSemaphores (sems_of semaphores) t
sems_of_shared semaphores t first second =
    let one = sems_of_zero semaphores 0 first in
    let three = sems_of_zero semaphores 1 second in
    (
      one,
      three,
      λ has. absurd (omega (arith, has.own 1 3 (omega arith) (omega arith) (one ∙ sym three))),
    )

-- What both branches keep.
if_keeps {ℓ} :
    {A : Type ℓ} (f : Table → A) (c : Bool) (x y : Table) → f x ≡ f y → f (if c then x else y) ≡ f y
if_keeps f true x y e = e
if_keeps f false x y e = refl

signal_place : (sem : ℕ) (t : Table) → (signal sem t).place ≡ t.place
signal_place sem t =
    if_keeps (λ (u : Table). u.place) (t.valid sem)
      (record t { count = update t.count sem (t.count sem + 1) }) t refl

signal_valid : (sem : ℕ) (t : Table) → (signal sem t).valid ≡ t.valid
signal_valid sem t =
    if_keeps (λ (u : Table). u.valid) (t.valid sem)
      (record t { count = update t.count sem (t.count sem + 1) }) t refl

test_p_keeps :
    (number total sem : ℕ) (t : Table)
    → ((test_p number total sem t).place ≡ t.place) × ((test_p number total sem t).valid ≡ t.valid)
unfolding test_p
test_p_keeps number total sem t =
    let can_eat =
      (t.state number == hungry)
      && (not (t.state ((number + 4) % total) == eating)
          && not (t.state ((number + 1) % total) == eating)) in
    let eaten =
      say (is_eating (number + 1))
        (say (takes_fork ((number + 4) % total + 1) (number + 1)) (set_state number eating t)) in
    (
      if_keeps (λ (u : Table). u.place) can_eat (signal sem eaten) t (signal_place sem eaten),
      if_keeps (λ (u : Table). u.valid) can_eat (signal sem eaten) t (signal_valid sem eaten),
    )

-- `take_fork` moves nobody and makes no number a semaphore.
take_fork_keeps :
    (arg : Shared) (i : ℕ) (t : Table)
    → ((take_fork arg i t).place ≡ t.place) × ((take_fork arg i t).valid ≡ t.valid)
unfolding take_fork
take_fork_keeps arg i t =
    test_p_keeps i arg.cant (arg.sems i) (say (is_hungry (i + 1)) (set_state i hungry t))

-- The table after `i` has called `take_fork` with a number that is no semaphore.
abbrev passed : Shared → ℕ → Table → Table
passed arg i t = at_place i eats (take_fork arg i (at_place i waits t))

run_steps :
    (arg : Shared) (i : ℕ) (order : List ℕ) (t t' : Table)
    → turn arg i t ≡ some t'
    → run arg (i ∷ order) t ≡ run arg order t'
unfolding run
run_steps arg i order t t' goes = rw (run, goes) refl

run_done : (arg : Shared) (t : Table) → run arg [] t ≡ t
unfolding run
run_done arg t = refl

turn_asks :
    (arg : Shared) (i : ℕ) (t : Table)
    → t.place i ≡ outside
    → turn arg i t ≡ some (take_fork arg i (at_place i waits t))
unfolding turn
turn_asks arg i t before = rw (turn, before) refl

turn_passes :
    (arg : Shared) (i : ℕ) (t : Table)
    → t.place i ≡ waits
    → t.valid (arg.sems i) ≡ false
    → turn arg i t ≡ some (at_place i eats t)
unfolding turn
turn_passes arg i t at invalid = rw (turn, at, invalid) refl

-- `wait` does not hold such a philosopher.
run_passes :
    (arg : Shared) (i : ℕ) (order : List ℕ) (t : Table)
    → t.place i ≡ outside
    → t.valid (arg.sems i) ≡ false
    → run arg (i ∷ i ∷ order) t ≡ run arg order (passed arg i t)
run_passes arg i order t before invalid =
    let asks : Table = take_fork arg i (at_place i waits t) in
    let keeps = take_fork_keeps arg i (at_place i waits t) in
    let at : asks.place i ≡ waits = rw (keeps.0, ==_self i) refl in
    let still : asks.valid (arg.sems i) ≡ false = rw (keeps.1) invalid in
    run_steps arg i (i ∷ order) t asks (turn_asks arg i t before)
    ∙ run_steps arg i order asks (passed arg i t) (turn_passes arg i asks at still)

passed_place :
    (arg : Shared) (i : ℕ) (t : Table)
    → (passed arg i t).place ≡ update (update t.place i waits) i eats
passed_place arg i t = rw ((take_fork_keeps arg i (at_place i waits t)).0) refl

passed_at : (arg : Shared) (i : ℕ) (t : Table) → (passed arg i t).place i ≡ eats
passed_at arg i t = ap (λ (f : ℕ → Place). f i) (passed_place arg i t) ∙ rw (==_self i) refl

passed_other :
    (arg : Shared) (i j : ℕ) (t : Table) → (i == j) ≡ false → (passed arg i t).place j ≡ t.place j
passed_other arg i j t apart = ap (λ (f : ℕ → Place). f j) (passed_place arg i t) ∙ rw (apart) refl

passed_valid : (arg : Shared) (i : ℕ) (t : Table) → (passed arg i t).valid ≡ t.valid
passed_valid arg i t = (take_fork_keeps arg i (at_place i waits t)).1

-- Five philosophers with the semaphores that `createThreads` hands on, where the pointers to the
-- first and the third semaphore are below 2 ^ 31, at least 50, and no such number is a semaphore:
-- when the first and the last philosopher, who are neighbours, are before `take_fork` and call it one
-- after the other, both come back from it and eat, whatever the states are.
pub neighbours_eat :
    (semaphores : ℕ → ℕ) (t : Table)
    → (max_semaphores ≤ semaphores 0) × (semaphores 0 < 2 ^ 31)
    → (max_semaphores ≤ semaphores 2) × (semaphores 2 < 2 ^ 31)
    → ((n : ℕ) → max_semaphores ≤ n → n < 2 ^ 31 → t.valid n ≡ false)
    → t.place 0 ≡ outside
    → t.place 4 ≡ outside
    → let t' = run (record { cant = 5; sems = sems_of semaphores }) (0 ∷ 0 ∷ 4 ∷ 4 ∷ []) t in
      (t'.place 4 ≡ eats) × (t'.place ((4 + 1) % 5) ≡ eats)
neighbours_eat semaphores t first last invalid before_first before_last =
    let arg : Shared = record { cant = 5; sems = sems_of semaphores } in
    let zeroth : arg.sems 0 ≡ semaphores 0 = omega (arith, first) in
    let fourth : arg.sems 4 ≡ semaphores 2 = omega (arith, last) in
    let one : Table = passed arg 0 t in
    let two : Table = passed arg 4 one in
    let pass_first : t.valid (arg.sems 0) ≡ false =
      rw (zeroth) (invalid (semaphores 0) (first.0) (first.1)) in
    let pass_last : one.valid (arg.sems 4) ≡ false =
      rw (passed_valid arg 0 t, fourth) (invalid (semaphores 2) (last.0) (last.1)) in
    let there : one.place 4 ≡ outside = passed_other arg 0 4 t refl ∙ before_last in
    let ends : run arg (0 ∷ 0 ∷ 4 ∷ 4 ∷ []) t ≡ two =
      run_passes arg 0 (4 ∷ 4 ∷ []) t before_first pass_first
      ∙ (run_passes arg 4 [] one there pass_last ∙ run_done arg two) in
    (
      ap (λ (u : Table). u.place 4) ends ∙ passed_at arg 4 one,
      ap (λ (u : Table). u.place 0) ends ∙ (passed_other arg 4 0 one refl ∙ passed_at arg 0 t),
    )
