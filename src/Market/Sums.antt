-- ===== src/Market/Sums.antt =====
-- Sums over the first processes.
use sistemas_operativos.Base.{
  ℕ, zero, suc, ◌+◌, ◌≤◌, ◌<◌, ◌≡◌, ◌≢◌, arith, refl, update, update_self, update_ne, ℕ_discrete,
}

module _ {ℓ} {A : Type ℓ} (weight : A → ℕ) where
  abbrev pub sum : (ℕ → A) → ℕ → ℕ
  sum f zero = 0
  sum f (suc n) = weight (f n) + sum f n

  pub sum_outside : (f : ℕ → A) (n k : ℕ) (a : A) → n ≤ k → sum (update f k a) n ≡ sum f n
  sum_outside f zero k a out = refl
  sum_outside f (suc n) k a out =
      rw (update_ne f k n a (λ e. omega (arith, e)), sum_outside f n k a (omega arith))

  -- Changing one process changes the sum by its weights.
  pub sum-update :
      (f : ℕ → A) (n k : ℕ) (a : A)
      → k < n
      → sum (update f k a) n + weight (f k) ≡ sum f n + weight a
  sum-update f zero k a lt = absurd (omega arith)
  sum-update f (suc n) k a lt = elim (ℕ_discrete k n) [
    | yes here ↦
        rw (sum_outside f n k a (omega (arith, here)), here, update_self f n a) (omega arith)
    | no other ↦ rw (update_ne f k n a other) (omega (arith, sum-update f n k a (omega arith)))
  ]

  pub weight-le : (f : ℕ → A) (n k : ℕ) → k < n → weight (f k) ≤ sum f n
  weight-le f zero k lt = absurd (omega arith)
  weight-le f (suc n) k lt = elim (ℕ_discrete k n) [
    | yes here ↦ rw here (omega arith)
    | no other ↦ omega (arith, weight-le f n k (omega arith))
  ]

  -- A sum other than 0 has a part other than 0.
  pub sum_part : (f : ℕ → A) (n : ℕ) → sum f n ≢ 0 → (k : ℕ) × (k < n) × (weight (f k) ≢ 0)
  sum_part f zero ne = absurd (ne refl)
  sum_part f (suc n) ne = elim (ℕ_discrete (weight (f n)) 0) [
    | yes none_here ↦
        let v = sum_part f n (λ e. ne (omega (arith, e, none_here))) in
        (v.0, omega (arith, v.1), v.2)
    | no here ↦ (n, omega arith, here)
  ]

  pub sum_zero : (a : A) (n : ℕ) → weight a ≡ 0 → sum (λ k. a) n ≡ 0
  sum_zero a zero e = refl
  sum_zero a (suc n) e = omega (arith, e, sum_zero a n e)
