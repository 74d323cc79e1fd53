-- ===== src/Philosophers/Meals.antt =====
-- Userland/dummy/dummy.c: five philosophers, each with a semaphore of its own, in any order of steps.
-- That is how the program is meant; `createThreads` gives them other numbers, see Pointers.
use mathlib.Core.Path.{subst, ap}
use sistemas_operativos.Scheduler.Ring.{All}
use sistemas_operativos.Base.{
  ℕ, ◌+◌, ◌-◌, ◌%◌, ◌<◌, ◌≡◌, ◌≢◌, ◌⊎◌, refl, arith, ◌==◌, List, [], ◌∷◌, false, if◌then◌else◌,
  Bool-cases, inl, inr, Option, none, some, Option-cases, ℕ_discrete,
}
use sistemas_operativos.Philosophers.{
  Table, Place, outside, waits, eats, Shared, test_p, take_fork, put_fork, turn, run, set_state,
  at_place, say, hungry, thinking, Said,
}
use sistemas_operativos.Philosophers.Forks.{
  HasSemaphores, IsHeld, IsSound, test_p-IsApart, test_p-held, test_p-fits, test_p-keeps,
}

test_p-IsSound :
    (sems : ℕ → ℕ) (n : ℕ) (t : Table)
    → n < 5
    → HasSemaphores sems t
    → IsSound sems t
    → IsSound sems (test_p n 5 (sems n) t)
test_p-IsSound sems n t five has sound = record {
  apart = λ i lt. test_p-IsApart sems n t five i lt (sound.apart i lt);
  fits = λ i lt.
      test_p-fits sems n t five i lt (has.valid n five) (has.own i n lt five) (sound.fits i lt);
}

test_p-HasSemaphores :
    (sems : ℕ → ℕ) (n : ℕ) (t : Table)
    → n < 5
    → HasSemaphores sems t
    → HasSemaphores sems (test_p n 5 (sems n) t)
test_p-HasSemaphores sems n t five has = record {
  valid = λ i lt. rw ((test_p-keeps sems n t five).0) (has.valid i lt);
  own = has.own;
}

-- Between two steps: forks are held by one neighbour at a time, a philosopher's place, state and
-- semaphore fit, and whoever is hungry has a neighbour that eats.
pub record IsOrderly (sems : ℕ → ℕ) (t : Table) : Type 0 where
  pub has : HasSemaphores sems t
  pub sound : IsSound sems t
  pub held : (i : ℕ) → i < 5 → IsHeld t i

module _ (sems : ℕ → ℕ) (i : ℕ) (t : Table) (five : i < 5) (orderly : IsOrderly sems t) where
  abbrev asks : Table
  asks = say (Said.is_hungry (i + 1)) (set_state i hungry (at_place i waits t))

  asks-IsSound : t.place i ≡ outside → IsSound sems asks
  asks-IsSound out = record {
    apart = λ j lt. ground (arith, orderly.sound.apart j lt);
    fits = λ j lt. ground (arith, orderly.sound.fits j lt);
  }

  asks-IsHeld : (j : ℕ) → j < 5 → t.place i ≡ outside → j ≢ i → IsHeld asks j
  asks-IsHeld j lt out ne = ground (arith, orderly.held j lt, orderly.sound.fits i five)

  abbrev gives : Table
  gives =
      say (Said.is_thinking (i + 1)) (
        say (Said.puts_down ((i + 4) % 5 + 1) (i + 1))
          (set_state i thinking (at_place i outside t)))

  gives-IsSound : t.place i ≡ eats → IsSound sems gives
  gives-IsSound at = record {
    apart = λ j lt. ground (arith, orderly.sound.apart j lt);
    fits = λ j lt. ground (arith, orderly.sound.fits j lt, orderly.sound.fits i five);
  }

  gives-IsHeld : (j : ℕ) → j < 5 → j ≢ (i + 4) % 5 → j ≢ (i + 1) % 5 → IsHeld gives j
  gives-IsHeld j lt left right = ground (arith, orderly.held j lt)

  take_fork-IsOrderly :
      t.place i ≡ outside
      → IsOrderly sems (take_fork (record { cant = 5; sems = sems }) i (at_place i waits t))
  unfolding take_fork
  take_fork-IsOrderly out = record {
    has =
        test_p-HasSemaphores sems i asks five
          (record { valid = orderly.has.valid; own = orderly.has.own });
    sound =
        test_p-IsSound sems i asks five
          (record { valid = orderly.has.valid; own = orderly.has.own }) (asks-IsSound out);
    held = λ j lt. test_p-held sems i asks five j lt (λ ne. asks-IsHeld j lt out ne);
  }

  put_fork-IsOrderly :
      t.place i ≡ eats
      → IsOrderly sems (put_fork (record { cant = 5; sems = sems }) i (at_place i outside t))
  unfolding put_fork
  put_fork-IsOrderly at =
      let left : ℕ = (i + 4) % 5 in
      let right : ℕ = (i + 1) % 5 in
      let l : left < 5 = omega arith in
      let r : right < 5 = omega arith in
      let has₁ : HasSemaphores sems gives = record {
        valid = orderly.has.valid;
        own = orderly.has.own;
      } in
      let has₂ = test_p-HasSemaphores sems left gives l has₁ in
      let sound₂ = test_p-IsSound sems left gives l has₁ (gives-IsSound at) in
      let middle : Table = test_p left 5 (sems left) gives in
      record {
        has = test_p-HasSemaphores sems right middle r has₂;
        sound = test_p-IsSound sems right middle r has₂ sound₂;
        held = λ j lt. test_p-held sems right middle r j lt (λ not_right.
            test_p-held sems left gives l j lt (λ not_left. gives-IsHeld j lt not_left not_right));
      }

  abbrev served : Table
  served =
      at_place i eats
        (record t { count = λ j. if sems i == j then t.count (sems i) - 1 else t.count j })

  served-IsOrderly : t.place i ≡ waits → t.count (sems i) ≢ 0 → IsOrderly sems served
  served-IsOrderly at some_left = record {
    has = record { valid = orderly.has.valid; own = orderly.has.own };
    sound = record {
      apart = orderly.sound.apart;
      fits = λ j lt.
          ground (
            arith,
            orderly.sound.fits j lt,
            orderly.sound.fits i five,
            orderly.has.own j i lt five,
          );
    };
    held = orderly.held;
  }

Place-cases : (p : Place) → (p ≡ outside) ⊎ ((p ≡ waits) ⊎ (p ≡ eats))
Place-cases outside = inl refl
Place-cases waits = inr (inl refl)
Place-cases eats = inr (inr refl)

some_inj : {t t' : Table} → some t ≡ some t' → t ≡ t'
some_inj {t} e = ap (λ (o : Option Table). elim o [ none ↦ t | some x ↦ x ]) e

-- One step of one philosopher, if it can take one.
turn-IsOrderly :
    (sems : ℕ → ℕ) (i : ℕ) (t t' : Table)
    → i < 5
    → IsOrderly sems t
    → turn (record { cant = 5; sems = sems }) i t ≡ some t'
    → IsOrderly sems t'
unfolding turn
turn-IsOrderly sems i t t' five orderly e = elim (Place-cases (t.place i)) [
  | inl out ↦
      let made : some (take_fork arg i (at_place i waits t)) ≡ some t' = rw (turn, out) at e in
      subst (IsOrderly sems) (some_inj made) (take_fork-IsOrderly sems i t five orderly out)
  | inr (inl at) ↦ elim (Bool-cases (t.count (sems i) == 0)) [
    | inl none_left ↦ absurd (cc (rw (turn, at, orderly.has.valid i five, none_left) at e))
    | inr some_left ↦
        let made : some (served sems i t five orderly) ≡ some t' =
          rw (turn, at, orderly.has.valid i five, some_left) at e in
        subst (IsOrderly sems) (some_inj made)
          (served-IsOrderly sems i t five orderly at (ground arith))
  ]
  | inr (inr at) ↦
      let made : some (put_fork arg i (at_place i outside t)) ≡ some t' = rw (turn, at) at e in
      subst (IsOrderly sems) (some_inj made) (put_fork-IsOrderly sems i t five orderly at)
]
  where
    arg : Shared
    arg = record { cant = 5; sems = sems }

-- Five philosophers with a semaphore each, from an orderly table on, in any order of steps: no
-- neighbours hold forks at the same time, place, state and semaphore of each fit, and whoever is
-- hungry has a neighbour that eats.
run-IsOrderly :
    (sems : ℕ → ℕ) (order : List ℕ) (t : Table)
    → All (λ i. i < 5) order
    → IsOrderly sems t
    → IsOrderly sems (run (record { cant = 5; sems = sems }) order t)
unfolding run
run-IsOrderly sems [] t five orderly = orderly
run-IsOrderly sems (i ∷ order) t five orderly =
    elim (Option-cases (turn (record { cant = 5; sems = sems }) i t)) [
      | inl blocked ↦ rw (run, blocked) (run-IsOrderly sems order t five.1 orderly)
      | inr (t', goes) ↦
          rw (run, goes)
            (run-IsOrderly sems order t' five.1 (turn-IsOrderly sems i t t' five.0 orderly goes))
    ]

neighbours_apart :
    (sems : ℕ → ℕ) (t : Table)
    → IsOrderly sems t
    → (i : ℕ) → i < 5
    → t.place i ≡ eats
    → t.place ((i + 1) % 5) ≢ eats
neighbours_apart sems t orderly i lt at next =
    orderly.sound.apart i lt ((rw at at (orderly.sound.fits i lt)).0)
      ((rw next at (orderly.sound.fits ((i + 1) % 5) (omega arith))).0)

-- A philosopher that is not hungry can take a step.
fed_goes :
    (sems : ℕ → ℕ) (t : Table) (i : ℕ)
    → IsOrderly sems t
    → i < 5
    → t.state i ≢ 1
    → (t' : Table) × (turn (record { cant = 5; sems = sems }) i t ≡ some t')
unfolding turn
fed_goes sems t i orderly lt fed = elim (Place-cases (t.place i)) [
  | inl out ↦ (take_fork (record { cant = 5; sems = sems }) i (at_place i waits t), rw (turn, out))
  | inr (inl at) ↦
      let fits : ((t.state i ≡ 1) × (t.count (sems i) ≡ 0))
          ⊎ ((t.state i ≡ 2) × (t.count (sems i) ≡ 1)) =
        rw at at (orderly.sound.fits i lt) in
      let some_left : (t.count (sems i) == 0) ≡ false = ground arith in
      (served sems i t lt orderly, rw (turn, at, orderly.has.valid i lt, some_left))
  | inr (inr at) ↦
      (put_fork (record { cant = 5; sems = sems }) i (at_place i outside t), rw (turn, at))
]

somebody_goes :
    (sems : ℕ → ℕ) (t : Table)
    → IsOrderly sems t
    → (i : ℕ) × (i < 5) × (t' : Table) × (turn (record { cant = 5; sems = sems }) i t ≡ some t')
somebody_goes sems t orderly = elim (ℕ_discrete (t.state 0) 1) [
  | yes starving ↦ elim (orderly.held 0 (omega arith) starving) [
    | inl left ↦
        let v = fed_goes sems t 4 orderly (omega arith) (λ e. omega (arith, e, left)) in
        (4, omega arith, v.0, v.1)
    | inr right ↦
        let v = fed_goes sems t 1 orderly (omega arith) (λ e. omega (arith, e, right)) in
        (1, omega arith, v.0, v.1)
  ]
  | no fed ↦ let v = fed_goes sems t 0 orderly (omega arith) fed in (0, omega arith, v.0, v.1)
]

-- Five philosophers with a semaphore each, which `createThreads` does not give them, from an orderly
-- table on: after any order of steps no two neighbours are behind `take_fork` and before `put_fork`,
-- and some philosopher can take a step.
run_exclusive :
    (sems : ℕ → ℕ) (order : List ℕ) (t : Table) (i : ℕ)
    → i < 5
    → All (λ j. j < 5) order
    → IsOrderly sems t
    → let t' = run (record { cant = 5; sems = sems }) order t in
      ¬ ((t'.place i ≡ eats) × (t'.place ((i + 1) % 5) ≡ eats))
      × ((j : ℕ) × (j < 5)
          × (t'' : Table) × (turn (record { cant = 5; sems = sems }) j t' ≡ some t''))
run_exclusive sems order t i lt five orderly =
    let end_ = run-IsOrderly sems order t five orderly in
    (
      λ both.
          neighbours_apart sems (run (record { cant = 5; sems = sems }) order t) end_ i lt (both.0)
            (both.1),
      somebody_goes sems (run (record { cant = 5; sems = sems }) order t) end_,
    )
