-- ===== src/Buddy/Level.antt =====
-- Kernel/buddyAllocator.c, `getLevel`: how large a block a request gets.
use native.Mathlib.Nat.{pow-suc}
use sistemas_operativos.Base.{
  ℕ, zero, suc, ◌+◌, ◌-◌, ◌*◌, ◌^◌, ◌/◌, ◌%◌, ◌≤◌, ◌<◌, ◌≡◌, arith, Bool-cases, inl, inr, ◌==◌,
  if◌then◌else◌,
}
use sistemas_operativos.Buddy.{halvings, get_level, Buddy}

-- `k` is the binary logarithm of `n`, rounded up.
pub record IsLog (n k : ℕ) : Type 0 where
  pub fits : n ≤ 2 ^ k
  pub least : 2 ^ k < 2 * n

IsLog-double :
    (n k : ℕ) → 1 < n → IsLog (if n % 2 == 0 then n / 2 else n / 2 + 1) k → IsLog n (suc k)
IsLog-double n zero h l = ground arith
IsLog-double n (suc k) h l = ground (arith, pow-suc 2 k, pow-suc 2 (suc k))

halvings_lem : (fuel n i : ℕ) → 0 < n → n ≤ fuel → (k : ℕ) × (halvings fuel n i ≡ i + k) × IsLog n k
unfolding halvings
halvings_lem zero n i h le = absurd (omega arith)
halvings_lem (suc fuel) n i h le = elim (Bool-cases (n == 1)) [
  | inl one ↦ (0, ground arith, ground arith)
  | inr more ↦
      let next : ℕ = if n % 2 == 0 then n / 2 else n / 2 + 1 in
      let (k, e, l) = halvings_lem fuel next (i + 1) (ground arith) (ground arith) in
      (suc k, rw more (omega (arith, e)), IsLog-double n k (ground arith) l)
]

pub pow-pos-two : (k : ℕ) → 0 < 2 ^ k
pow-pos-two zero = omega arith
pow-pos-two (suc k) = omega (arith, pow-suc 2 k, pow-pos-two k)

pub pow_mono : (k m : ℕ) → k ≤ m → 2 ^ k ≤ 2 ^ m
pow_mono zero m h = pow-pos-two m
pow_mono (suc k) zero h = absurd (omega arith)
pow_mono (suc k) (suc m) h = omega (arith, pow-suc 2 k, pow-suc 2 m, pow_mono k m (omega arith))

le_of_pow : (k m : ℕ) → 2 ^ k < 2 * 2 ^ m → k ≤ m
le_of_pow zero m h = omega arith
le_of_pow (suc k) zero h = absurd (omega (arith, pow-suc 2 k, pow-pos-two k))
le_of_pow (suc k) (suc m) h =
    let r = le_of_pow k m (omega (arith, h, pow-suc 2 k, pow-suc 2 m)) in omega arith

-- A request of at least one page that is no larger than the whole heap gets a level of the tree,
-- counted from 1, whose blocks hold the pages asked for and less than twice as many.
pub get_level-IsLog :
    (pages : ℕ) (b : Buddy) (depth : ℕ)
    → b.heap_level ≡ suc depth
    → 0 < pages
    → pages ≤ 2 ^ depth
    → (1 ≤ get_level pages b)
      × (get_level pages b ≤ b.heap_level)
      × IsLog pages (b.heap_level - get_level pages b)
unfolding get_level
get_level-IsLog pages b depth hl pos le =
    let (k, e, l) = halvings_lem pages pages 0 pos (omega arith) in
    let small = le_of_pow k depth (omega (arith, l.least)) in
    let same : b.heap_level - (b.heap_level - halvings pages pages 0) ≡ k = omega (arith, e) in
    (omega (arith, e), omega (arith, e), rw same l)
