-- ===== src/Buddy/Create.antt =====
-- Kernel/buddyAllocator.c, `createHeap`: where the blocks lie, and that the heap is ready.
use native.Mathlib.Nat.{pow-suc}
use sistemas_operativos.Base.{
  ℕ, zero, suc, ◌+◌, ◌-◌, ◌*◌, ◌^◌, ◌/◌, ◌≤◌, ◌<◌, ◌≡◌, refl, arith, Bool-cases, inl, inr, ◌==◌,
  update_ne, update, ℕ_discrete, ==_self, ==_iff, ne_of_==, ◌∙◌, dec_lt,
}
use sistemas_operativos.Buddy.Level.{pow-pos-two, pow_mono}
use sistemas_operativos.Buddy.Alloc.{IsReady}
use sistemas_operativos.Buddy.{Buddy, heapsize, memory, base_memory, create_loop, create_heap}

-- The first `i` entries of the arrays are set up: entry `2 ^ l + e - 1` describes block `e` of
-- level `l`.
pub record IsLaid (i : ℕ) (b : Buddy) : Type 0 where
  pub cleared : (k : ℕ) → k < i → b.occupied k ≡ 0
  pub positive : (k : ℕ) → k < i → 0 < b.base k
  pub placed :
      (l e : ℕ)
      → e < 2 ^ l
      → 2 ^ l + e ≤ i
      → b.base (2 ^ l + e - 1) ≡ memory / 2 ^ l * e + base_memory

-- A number has one level and one place in it.
level_unique :
    (l m e f : ℕ) → e < 2 ^ l → f < 2 ^ m → 2 ^ l + e ≡ 2 ^ m + f → (2 ^ l ≡ 2 ^ m) × (e ≡ f)
level_unique l m e f he hf eq = elim (dec_lt l m) [
  | yes below ↦ absurd (omega (arith, pow_mono (suc l) m (omega arith), pow-suc 2 l))
  | no not_below ↦ elim (dec_lt m l) [
    | yes above ↦ absurd (omega (arith, pow_mono (suc m) l (omega arith), pow-suc 2 m))
    | no same ↦ let q : l ≡ m = omega arith in (rw q, let r : 2 ^ l ≡ 2 ^ m = rw q in omega arith)
  ]
]

-- One round of the loop, at the block `e` of level `l`.
round :
    (i l e : ℕ) {b : Buddy}
    → IsLaid i b
    → i + 1 ≡ 2 ^ l + e
    → e < 2 ^ l
    → IsLaid (i + 1) (record b {
      occupied = update b.occupied i 0;
      base = update b.base i (memory / 2 ^ l * e + base_memory);
    })
round i l e {b} v at_i small = record {
  cleared = λ k lt. ground (arith, v.cleared k);
  positive = λ k lt. ground (arith, v.positive k);
  placed = λ m f hf le. elim (ℕ_discrete i (2 ^ m + f - 1)) [
    | yes here ↦
        let (p, q) = level_unique l m e f small hf (omega (arith, pow-pos-two m)) in
        rw (← here, ==_self i, p, q)
    | no before ↦
        update_ne b.base i (2 ^ m + f - 1) _ before ∙ v.placed m f hf (omega (arith, pow-pos-two m))
  ];
}

create_loop-IsLaid :
    (n i l e : ℕ) {b : Buddy}
    → IsLaid i b
    → i + 1 ≡ 2 ^ l + e
    → e ≤ 2 ^ l
    → IsLaid (i + n) (create_loop n i (suc l) e (2 ^ l) b)
unfolding create_loop
create_loop-IsLaid zero i l e {b} v at_i le =
    let same : i + 0 ≡ i = omega arith in
    rw same (record { cleared = v.cleared; positive = v.positive; placed = v.placed })
create_loop-IsLaid (suc n) i l e {b} v at_i le =
    let count : i + suc n ≡ i + 1 + n = omega arith in
    elim (Bool-cases (2 ^ l == e)) [
      | inl wrap ↦
          let up : suc l + 1 ≡ suc (suc l) = omega arith in
          rw (count, wrap, up, ← pow-suc 2 l)
            (create_loop-IsLaid n (i + 1) (suc l) 1
              (round i (suc l) 0 v (omega (arith, (==_iff (2 ^ l) e).0 wrap, pow-suc 2 l))
                (pow-pos-two (suc l)))
              (omega (arith, (==_iff (2 ^ l) e).0 wrap, pow-suc 2 l)) (pow-pos-two (suc l)))
      | inr inside ↦
          rw (count, inside)
            (create_loop-IsLaid n (i + 1) l (e + 1)
              (round i l e v at_i (omega (arith, ne_of_== (2 ^ l) e inside))) (omega arith)
              (omega (arith, ne_of_== (2 ^ l) e inside)))
    ]

create_heap-levels : (b : Buddy) → (create_heap b).heap_level ≡ 11
unfolding create_heap
create_heap-levels b = refl

IsLaid-nothing : (b : Buddy) → IsLaid 0 b
IsLaid-nothing b = record {
  cleared = λ k lt. absurd (omega arith);
  positive = λ k lt. absurd (omega arith);
  placed = λ l e h le. absurd (omega (arith, pow-pos-two l));
}

create_heap-IsLaid : (b : Buddy) → IsLaid heapsize (create_heap b)
unfolding create_heap
create_heap-IsLaid b =
    create_loop-IsLaid heapsize 0 0 0 (IsLaid-nothing b) (omega arith) (omega arith)

-- Whatever the memory held, `create_heap` leaves a heap that is ready for requests, and block `e`
-- of level `l` of its tree starts at the `e`-th of `2 ^ l` equal parts of the area.
pub create_heap-IsReady :
    (b : Buddy)
    → IsReady (create_heap b)
      × ((l e : ℕ)
          → l ≤ 10
          → e < 2 ^ l
          → (create_heap b).base (2 ^ l + e - 1) ≡ memory / 2 ^ l * e + base_memory)
create_heap-IsReady b = (
  record {
    heap = record {
      based = v.positive;
      small = λ k lt. omega (arith, v.cleared k lt);
      up = λ n h le marked. absurd (marked (v.cleared (n - 1) (omega arith)));
    };
    levels = create_heap-levels b;
  },
  λ l e deep h. v.placed l e h (omega (arith, pow_mono (suc l) 11 (omega arith), pow-suc 2 l)),
)
  where
    v : IsLaid heapsize (create_heap b)
    v = create_heap-IsLaid b
