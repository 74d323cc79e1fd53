-- ===== src/Buddy/Search.antt =====
-- Kernel/buddyAllocator.c, `getNextPageRecursive`: which node a search takes, and what it marks.
use native.Mathlib.Nat.{pow-suc}
use sistemas_operativos.Base.{
  ℕ, zero, suc, ◌+◌, ◌-◌, ◌*◌, ◌^◌, ◌/◌, ◌≤◌, ◌<◌, ◌≡◌, ◌≢◌, ◌⊎◌, refl, arith, Bool-cases, inl, inr,
  ◌==◌, ==_ne, ne_of_==, if◌then◌else◌, List, [], ◌∷◌, Bool, true, false, length, ap, ℕ_discrete,
}
use sistemas_operativos.Buddy.Level.{pow-pos-two}
use sistemas_operativos.Buddy.{Buddy, node, mark, get_next_page, heapsize, lchild, rchild}

-- The left child for `false`, the right child for `true`.
abbrev pub child : Bool → ℕ → ℕ
child false i = lchild i
child true i = rchild i

abbrev pub node_at : ℕ → List Bool → ℕ
node_at i [] = i
node_at i (t ∷ p) = node_at (child t i) p

pub child-gt : (t : Bool) (i : ℕ) → 0 < i → i < child t i
child-gt false i h = omega arith
child-gt true i h = omega arith

pub child-half : (t : Bool) (i n : ℕ) → n ≡ child t i → n / 2 ≡ i
child-half false i n h = omega arith
child-half true i n h = omega arith

pub node_at-ge : (i : ℕ) (p : List Bool) → 0 < i → i ≤ node_at i p
node_at-ge i [] h = omega arith
node_at-ge i (false ∷ p) h = omega (arith, node_at-ge (2 * i) p (omega arith))
node_at-ge i (true ∷ p) h = omega (arith, node_at-ge (2 * i + 1) p (omega arith))

-- No node from `i` down along `p`, the last included, is full.
abbrev pub IsOpen : Buddy → ℕ → List Bool → Type 0
IsOpen b i [] = node b i ≢ 2
IsOpen b i (t ∷ p) = (node b i ≢ 2) × IsOpen b (child t i) p

-- Every node above a marked node is marked.
pub record IsHeap (b : Buddy) : Type 0 where
  pub based : (k : ℕ) → k < heapsize → 0 < b.base k
  pub small : (k : ℕ) → k < heapsize → b.occupied k ≤ 2
  pub up : (n : ℕ) → 1 < n → n ≤ heapsize → node b n ≢ 0 → node b (n / 2) ≢ 0

-- The search from node `i` down `d` levels took heap `b` to `b'` and gave address `a`.
pub record Found (d i : ℕ) (b b' : Buddy) (a : ℕ) : Type 0 where
  pub path : List Bool
  pub deep : length path ≡ d
  pub address : a ≡ b.base (node_at i path - 1)
  pub free : node b (node_at i path) ≡ 0
  pub passed : IsOpen b i path
  pub taken : node b' (node_at i path) ≡ 2
  pub same_base : b'.base ≡ b.base
  pub same_level : b'.heap_level ≡ b.heap_level
  pub full : (k : ℕ) → b.occupied k ≡ 2 → b'.occupied k ≡ 2
  pub grows : (k : ℕ) → b.occupied k ≢ 0 → b'.occupied k ≢ 0
  pub here : node b' i ≢ 0
  pub up : (n : ℕ) → 1 < n → n ≤ heapsize → n ≢ i → node b' n ≢ 0 → node b' (n / 2) ≢ 0
  pub small : (k : ℕ) → k < heapsize → b'.occupied k ≤ 2

module _ {d i a : ℕ} {b b1 : Buddy} (t : Bool) (pos : 0 < i) (f : Found d (child t i) b b1 a)
    (open_here : node b i ≢ 2) where
  below : i < node_at i (t ∷ f.path)
  below =
      omega
        (arith, child-gt t i pos, node_at-ge (child t i) f.path (omega (arith, child-gt t i pos)))

  Found-mark : (v : ℕ) → 0 < v → v ≤ 2 → Found (suc d) i b (mark i v b1) a
  Found-mark v lo hi = record {
    path = t ∷ f.path;
    deep = ap suc f.deep;
    address = f.address;
    free = f.free;
    passed = (open_here, f.passed);
    taken = ground (arith, f.taken, below);
    same_base = f.same_base;
    same_level = f.same_level;
    full = λ k h. ground (arith, f.full k);
    grows = λ k h. ground (arith, f.grows k);
    here = ground arith;
    up = λ n h le ne marked. elim (ℕ_discrete n (child t i)) [
      | yes e ↦ ground (arith, child-half t i n e)
      | no other ↦ ground (arith, f.up n h le other, marked)
    ];
    small = λ k lt. ground (arith, f.small k);
  }

  Found-pass : node b i ≢ 0 → Found (suc d) i b b1 a
  Found-pass used = record {
    path = t ∷ f.path;
    deep = ap suc f.deep;
    address = f.address;
    free = f.free;
    passed = (open_here, f.passed);
    taken = f.taken;
    same_base = f.same_base;
    same_level = f.same_level;
    full = f.full;
    grows = f.grows;
    here = f.grows (i - 1) used;
    up = λ n h le ne marked. elim (ℕ_discrete n (child t i)) [
      | yes e ↦ rw (child-half t i n e) (f.grows (i - 1) used)
      | no other ↦ f.up n h le other marked
    ];
    small = f.small;
  }

-- The search failed and changed nothing, below a marked node; or it took a node.
abbrev pub Outcome : ℕ → ℕ → Buddy → ℕ × Buddy → Type 0
Outcome d i b r = ((r.0 ≡ 0) × (r.1 ≡ b) × (node b i ≢ 0)) ⊎ ((0 < r.0) × Found d i b r.1 r.0)

take_here :
    (i : ℕ) (b : Buddy)
    → IsHeap b
    → 0 < i
    → i ≤ heapsize
    → node b i ≢ 2
    → node b i ≢ 1
    → Found zero i b (mark i 2 b) (b.base (i - 1))
take_here i b v pos le n2 n1 = record {
  path = [];
  deep = refl;
  address = refl;
  free = omega (arith, v.small (i - 1) (omega arith));
  passed = n2;
  taken = ground arith;
  same_base = refl;
  same_level = refl;
  full = λ k h. ground arith;
  grows = λ k h. ground arith;
  here = ground arith;
  up = λ n h le ne marked. ground (arith, v.up n h le);
  small = λ k lt. ground (arith, v.small k);
}

room_arith :
    (i p : ℕ)
    → i * (p * 2) + p * 2 ≤ suc heapsize
    → (2 * i * p + p ≤ suc heapsize) × ((2 * i + 1) * p + p ≤ suc heapsize)
room_arith i p h = (omega arith, omega arith)

le_of_room : (i p : ℕ) → 0 < p → i * p + p ≤ suc heapsize → i ≤ heapsize
le_of_room i p pos h = grind arith

child_room :
    (d i : ℕ)
    → i * 2 ^ suc d + 2 ^ suc d ≤ suc heapsize
    → (2 * i * 2 ^ d + 2 ^ d ≤ suc heapsize) × ((2 * i + 1) * 2 ^ d + 2 ^ d ≤ suc heapsize)
child_room d i h = room_arith i (2 ^ d) (rw pow-suc at h)

child_le : (d i : ℕ) → i * 2 ^ suc d + 2 ^ suc d ≤ suc heapsize → 2 * i ≤ heapsize
child_le d i h = le_of_room (2 * i) (2 ^ d) (pow-pos-two d) (child_room d i h).0

-- The part of the search that follows a failure below the left child.
try_right :
    (d i : ℕ) (b : Buddy)
    → IsHeap b
    → 0 < i
    → 2 * i ≤ heapsize
    → node b i ≢ 2
    → node b (2 * i) ≢ 0
    → (r : ℕ × Buddy) → Outcome d (2 * i + 1) b r
    → Outcome (suc d) i b (
        if r.0 == 0 then (0, r.1) else if node r.1 (2 * i + 1) == 2 then (r.0, mark i 2 r.1) else r)
try_right d i b v pos le open_here used r (inl (no_right, same, also)) =
    rw (no_right) (inl (refl, same, above))
  where
    above : node b i ≢ 0
    above = let e : 2 * i / 2 ≡ i = omega arith in rw e at (v.up (2 * i) (omega arith) le used)
try_right d i b v pos le open_here used r (inr (some_right, f)) =
    rw (==_ne r.0 0 (omega arith)) (elim (Bool-cases (node r.1 (2 * i + 1) == 2)) [
      | inl full ↦
          rw full (inr (some_right, Found-mark true pos f open_here 2 (omega arith) (omega arith)))
      | inr part ↦ rw part (inr (some_right, Found-pass true pos f open_here above))
    ])
  where
    above : node b i ≢ 0
    above = let e : 2 * i / 2 ≡ i = omega arith in rw e at (v.up (2 * i) (omega arith) le used)

-- A search of a heap whose nodes are marked upwards, inside the tree.
pub get_next_page-Outcome :
    (d i : ℕ) (b : Buddy)
    → IsHeap b
    → 0 < i
    → i * 2 ^ d + 2 ^ d ≤ suc heapsize
    → Outcome d i b (get_next_page d i b)
unfolding get_next_page
get_next_page-Outcome zero i b v pos room = elim (Bool-cases (node b i == 2)) [
  | inl full ↦ rw full (inl (refl, refl, ground arith))
  | inr open_here ↦ elim (Bool-cases (node b i == 1)) [
    | inl part ↦ rw (open_here, part) (inl (refl, refl, ground arith))
    | inr unused ↦
        rw (open_here, unused)
          (inr (
            v.based (i - 1) (omega arith),
            take_here i b v pos (omega arith) (ne_of_== _ _ open_here) (ne_of_== _ _ unused),
          ))
  ]
]
get_next_page-Outcome (suc d) i b v pos room = elim (Bool-cases (node b i == 2)) [
  | inl full ↦ rw full (inl (refl, refl, ground arith))
  | inr open_here ↦
      elim (get_next_page-Outcome d (2 * i) b v (omega arith) (child_room d i room).0) [
        | inr (some_left, f) ↦
            rw (open_here, ==_ne (get_next_page d (2 * i) b).0 0 (omega arith))
              (inr (
                some_left,
                Found-mark false pos f (ne_of_== _ _ open_here) 1 (omega arith) (omega arith),
              ))
        | inl (no_left, same, used) ↦
            rw (open_here, no_left, same)
              (try_right d i b v pos (child_le d i room) (ne_of_== _ _ open_here) used
                (get_next_page d (2 * i + 1) b)
                (get_next_page-Outcome d (2 * i + 1) b v (omega arith) (child_room d i room).1))
      ]
]
