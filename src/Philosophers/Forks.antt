-- ===== src/Philosophers/Forks.antt =====
-- Userland/dummy/dummy.c: what holds of the table between two steps of five philosophers, and that
-- `testP` keeps it.
use sistemas_operativos.Base.{ℕ, ◌+◌, ◌%◌, ◌<◌, ◌≡◌, ◌≢◌, ◌⊎◌, arith, true}
use sistemas_operativos.Philosophers.{Table, Place, outside, waits, eats, test_p}

-- Everybody has a semaphore of its own.
pub record HasSemaphores (sems : ℕ → ℕ) (t : Table) : Type 0 where
  pub valid : (i : ℕ) → i < 5 → t.valid (sems i) ≡ true
  pub own : (i j : ℕ) → i < 5 → j < 5 → sems i ≡ sems j → i ≡ j

-- What a philosopher's place says of its state and of its semaphore.
abbrev pub Fits : Place → ℕ → ℕ → Type 0
Fits outside st c = (st ≡ 0) × (c ≡ 0)
Fits waits st c = ((st ≡ 1) × (c ≡ 0)) ⊎ ((st ≡ 2) × (c ≡ 1))
Fits eats st c = (st ≡ 2) × (c ≡ 0)

abbrev pub IsApart : Table → ℕ → Type 0
IsApart t i = t.state i ≡ 2 → t.state ((i + 1) % 5) ≢ 2

-- A hungry philosopher has a neighbour that eats.
abbrev pub IsHeld : Table → ℕ → Type 0
IsHeld t i = t.state i ≡ 1 → (t.state ((i + 4) % 5) ≡ 2) ⊎ (t.state ((i + 1) % 5) ≡ 2)

pub record IsSound (sems : ℕ → ℕ) (t : Table) : Type 0 where
  pub apart : (i : ℕ) → i < 5 → IsApart t i
  pub fits : (i : ℕ) → i < 5 → Fits (t.place i) (t.state i) (t.count (sems i))

module _ (sems : ℕ → ℕ) (n : ℕ) (t : Table) (five : n < 5) where
  pub test_p-IsApart : (i : ℕ) → i < 5 → IsApart t i → IsApart (test_p n 5 (sems n) t) i
  unfolding test_p
  test_p-IsApart i lt h = ground arith

  pub test_p-held : (i : ℕ) → i < 5 → (i ≢ n → IsHeld t i) → IsHeld (test_p n 5 (sems n) t) i
  unfolding test_p
  test_p-held i lt h = ground arith

  pub test_p-fits :
      (i : ℕ)
      → i < 5
      → t.valid (sems n) ≡ true
      → (sems i ≡ sems n → i ≡ n)
      → Fits (t.place i) (t.state i) (t.count (sems i))
      → Fits
          ((test_p n 5 (sems n) t).place i)
          ((test_p n 5 (sems n) t).state i)
          ((test_p n 5 (sems n) t).count (sems i))
  unfolding test_p
  test_p-fits i lt valid own h = ground arith

  pub test_p-keeps :
      ((test_p n 5 (sems n) t).valid ≡ t.valid) × ((test_p n 5 (sems n) t).place ≡ t.place)
  unfolding test_p
  test_p-keeps = ground arith
