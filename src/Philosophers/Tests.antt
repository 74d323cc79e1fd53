-- ===== src/Philosophers/Tests.antt =====
-- Five philosophers that think, and the theorems there.
use sistemas_operativos.Base.{ℕ, ◌+◌, ◌%◌, ◌≡◌, refl, arith, List, [], ◌∷◌, true, ltb}
use sistemas_operativos.Philosophers.{Table, outside, eats, run, turn, sems_of}
use sistemas_operativos.Philosophers.Forks.{HasSemaphores}
use sistemas_operativos.Philosophers.Pointers.{sems_of_shared, neighbours_eat}

abbrev table : Table
table = record {
  state = λ i. 0;
  place = λ i. outside;
  count = λ k. 0;
  valid = λ k. true;
  said = [];
}

abbrev own : ℕ → ℕ
own i = i

-- The first and the second take forks; the second has to wait until the first has put them down.
abbrev order : List ℕ
order = 0 ∷ 1 ∷ 0 ∷ 1 ∷ 0 ∷ 1 ∷ []

second_eats : (run (record { cant = 5; sems = own }) order table).place 1 ≡ eats
unfolding run turn
second_eats = refl

sems_of_shared_example :
    (sems_of (λ i. 0x100000 + i) 1 ≡ 0)
    × (sems_of (λ i. 0x100000 + i) 3 ≡ 0)
    × ¬ HasSemaphores (sems_of (λ i. 0x100000 + i)) table
sems_of_shared_example = sems_of_shared (λ i. 0x100000 + i) table (omega arith) (omega arith)

-- Numbers below 30 are semaphores, and the states are what the memory happened to hold.
abbrev uninitialised : Table
uninitialised = record table { state = λ i. 2; valid = λ k. ltb k 30 }

neighbours_eat_example :
    let t =
      run
        (record { cant = 5; sems = sems_of (λ i. 0x100000 + i) })
        (0 ∷ 0 ∷ 4 ∷ 4 ∷ [])
        uninitialised in
    (t.place 4 ≡ eats) × (t.place ((4 + 1) % 5) ≡ eats)
neighbours_eat_example =
    neighbours_eat (λ i. 0x100000 + i) uninitialised (omega arith, omega arith)
      (omega arith, omega arith) (λ n least most. ground (arith, least)) refl refl
