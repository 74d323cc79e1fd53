-- ===== src/Mutex/Queue.antt =====
-- Kernel/mutex.c: the queue of blocked pids, an array whose free entries hold -1.
use sistemas_operativos.Base.{
  ℕ, suc, ◌+◌, ◌≤◌, ◌<◌, ◌≡◌, ◌≢◌, ◌⊎◌, refl, ap, arith, List, [], ◌∷◌, ◌++◌, none, some,
  Bool-cases, inl, inr, length, set, if◌then◌else◌, ◌==◌, ==_ne, take, drop,
}
use sistemas_operativos.Mutex.{
  no_blocked_queue_value, no_space_left_m, free_in_queue, first_blocked,
}

-- The pids that wait, in the order of the array.
abbrev pub waiters : List ℕ → List ℕ
waiters [] = []
waiters (x ∷ xs) = if x == no_blocked_queue_value then waiters xs else x ∷ waiters xs

-- The first free entry is found; taking it adds the pid to those that wait, and its place is
-- behind the entries before it, all of which are taken.
pub free_in_queue_lem :
    (q : List ℕ) (i pid : ℕ)
    → i + length q < no_space_left_m
    → pid ≢ no_blocked_queue_value
    → ((free_in_queue q i ≡ no_space_left_m) × (length (waiters q) ≡ length q))
      ⊎ ((p : ℕ) × (p < length q)
          × (free_in_queue q i ≡ i + p)
          × (waiters q ≡ take p q ++ waiters (drop p q))
          × (waiters (set q p pid) ≡ take p q ++ pid ∷ waiters (drop p q)))
unfolding free_in_queue
free_in_queue_lem [] i pid room real = inl (refl, refl)
free_in_queue_lem (x ∷ xs) i pid room real = elim (Bool-cases (x == no_blocked_queue_value)) [
  | inl free ↦ inr (0, omega arith, rw free (omega arith), refl, rw (==_ne pid _ real, free))
  | inr taken ↦ elim (free_in_queue_lem xs (i + 1) pid (omega arith) real) [
    | inl (full, all) ↦ inl (rw taken full, rw taken (ap suc all))
    | inr (p, lt, e, f, g) ↦ inr (
      suc p,
      omega arith,
      rw taken (omega (arith, e)),
      rw taken (ap (◌∷◌ x) f),
      rw taken (ap (◌∷◌ x) g),
    )
  ]
]

-- The entry taken out is the first of those that wait.
pub first_blocked_lem :
    (q : List ℕ)
    → ((first_blocked q ≡ none) × (waiters q ≡ []))
      ⊎ ((pid : ℕ) × (ys : List ℕ) × (first_blocked q ≡ some (pid, ys))
          × (waiters q ≡ pid ∷ waiters ys)
          × (length ys ≡ length q))
unfolding first_blocked
first_blocked_lem [] = inl (refl, refl)
first_blocked_lem (x ∷ xs) = elim (Bool-cases (x == no_blocked_queue_value)) [
  | inl free ↦ elim (first_blocked_lem xs) [
    | inl (e, f) ↦ inl (rw (free, e), rw (free, f))
    | inr (pid, ys, e, f, g) ↦ inr (pid, x ∷ ys, rw (free, e), rw (free, f), ap suc g)
  ]
  | inr taken ↦ inr (x, no_blocked_queue_value ∷ xs, rw taken, rw taken, refl)
]

pub length-waiters : (q : List ℕ) → length (waiters q) ≤ length q
length-waiters [] = omega arith
length-waiters (x ∷ xs) = ground (arith, length-waiters xs)
