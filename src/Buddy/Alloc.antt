-- ===== src/Buddy/Alloc.antt =====
-- Kernel/buddyAllocator.c, `allocPage`: the heap stays marked upwards, and blocks do not overlap.
use native.Mathlib.Nat.{pow-suc}
use sistemas_operativos.Base.{
  ℕ, zero, suc, ◌+◌, ◌-◌, ◌*◌, ◌^◌, ◌≤◌, ◌<◌, ◌≡◌, ◌≢◌, ◌⊎◌, refl, arith, Bool-cases, inl, inr,
  ◌==◌, ◌||◌, ltb, List, [], ◌∷◌, Bool, true, false, length, ap, dec_lt, ◌∙◌,
}
use sistemas_operativos.Buddy.Level.{IsLog, get_level-IsLog, pow_mono}
use sistemas_operativos.Buddy.Search.{
  child, node_at, node_at-ge, IsOpen, IsHeap, Found, Outcome, get_next_page-Outcome, child-half,
}
use sistemas_operativos.Buddy.{
  Buddy, node, get_next_page, heapsize, get_level, alloc_page, number_of_pages, parent,
}

-- The node `k` levels above node `n`; 0 above the root.
abbrev pub ancestor : ℕ → ℕ → ℕ
ancestor zero n = n
ancestor (suc k) n = parent (ancestor k n)

pub ancestor-add : (j k n : ℕ) → ancestor (j + k) n ≡ ancestor j (ancestor k n)
ancestor-add zero k n = let e : 0 + k ≡ k = omega arith in rw e
ancestor-add (suc j) k n =
    let e : suc j + k ≡ suc (j + k) = omega arith in rw e (ap parent (ancestor-add j k n))

ancestor-ge : (k n : ℕ) → ancestor k n ≤ n
ancestor-ge zero n = omega arith
ancestor-ge (suc k) n = omega (arith, ancestor-ge k n)

ancestor-node_at : (i : ℕ) (p : List Bool) → ancestor (length p) (node_at i p) ≡ i
ancestor-node_at i [] = refl
ancestor-node_at i (t ∷ p) =
    ap parent (ancestor-node_at (child t i) p) ∙ child-half t i (child t i) refl

-- An open path meets no full node.
open_above :
    (b : Buddy) (i : ℕ) (p : List Bool) (k : ℕ)
    → IsOpen b i p
    → k ≤ length p
    → node b (ancestor k (node_at i p)) ≢ 2
open_above b i [] zero o le = o
open_above b i [] (suc k) o le = absurd (omega arith)
open_above b i (t ∷ p) k o le = elim (dec_lt (length p) k) [
  | yes last ↦
      let e : k ≡ suc (length p) = omega arith in
      rw (e, ancestor-node_at (child t i) p, child-half t i (child t i) refl) o.0
  | no inside ↦ open_above b (child t i) p k o.1 (omega arith)
]

-- Above the root there is nothing.
ancestor_root : (k n : ℕ) → ancestor k n ≡ 1 → (j : ℕ) → ancestor (suc j + k) n ≡ 0
ancestor_root k n h zero = let e : 1 + k ≡ suc k = omega arith in rw (e, h)
ancestor_root k n h (suc j) =
    let e : suc (suc j) + k ≡ suc (suc j + k) = omega arith in rw (e, ancestor_root k n h j)

ancestor_past : (k n r : ℕ) → ancestor r n ≡ 1 → r < k → ancestor k n ≡ 0
ancestor_past k n r h lt =
    let e : k ≡ suc (k - r - 1) + r = omega arith in rw e (ancestor_root r n h (k - r - 1))

-- In a heap marked upwards every node above a marked one is marked.
ancestor_marked :
    {b : Buddy} (v : IsHeap b) (n : ℕ)
    → n ≤ heapsize
    → node b n ≢ 0
    → (k : ℕ) → 0 < ancestor k n
    → node b (ancestor k n) ≢ 0
ancestor_marked v n le marked zero pos = marked
ancestor_marked v n le marked (suc k) pos =
    v.up (ancestor k n) (omega arith) (omega (arith, ancestor-ge k n))
      (ancestor_marked v n le marked k (omega arith))

-- What a search from the root takes is apart from every full node: none is above the other.
pub Found-apart :
    {d a : ℕ} {b b' : Buddy}
    → IsHeap b
    → (f : Found d 1 b b' a) (n : ℕ) → 0 < n
    → n ≤ heapsize
    → node b n ≡ 2
    → node_at 1 f.path ≤ heapsize
    → (k : ℕ) → (ancestor k (node_at 1 f.path) ≢ n) × (ancestor k n ≢ node_at 1 f.path)
Found-apart {d} {b = b} v f n pos le full in_tree k = (not_above, not_below)
  where
    not_above : ancestor k (node_at 1 f.path) ≢ n
    not_above e = elim (dec_lt (length f.path) k) [
      | yes past ↦ absurd (
          omega (
            arith,
            e,
            ancestor_past k (node_at 1 f.path) (length f.path) (ancestor-node_at 1 f.path) past,
          ))
      | no inside ↦ open_above b 1 f.path k f.passed (omega arith) (rw e full)
    ]

    not_below : ancestor k n ≢ node_at 1 f.path
    not_below e =
        ancestor_marked v n le (omega arith) k (omega (arith, e, node_at-ge 1 f.path (omega arith)))
          (rw e f.free)

-- Page `j` of the area lies in the block of node `n`.
abbrev pub HoldsPage : ℕ → ℕ → Type 0
HoldsPage n j = (k : ℕ) × (ancestor k (number_of_pages + j) ≡ n)

-- Two nodes that hold one page lie one above the other.
shared_page :
    (m n j : ℕ)
    → HoldsPage m j
    → HoldsPage n j
    → ((k : ℕ) × (ancestor k m ≡ n)) ⊎ ((k : ℕ) × (ancestor k n ≡ m))
shared_page m n j (k, e) (l, f) = elim (dec_lt l k) [
  | yes lower ↦ inr (k - l, rw (← f) (step (k - l) l k (omega arith) e))
  | no higher ↦ inl (l - k, rw (← e) (step (l - k) k l (omega arith) f))
]
  where
    step :
        (d low high : ℕ)
        → d + low ≡ high
        → {x : ℕ} → ancestor high (number_of_pages + j) ≡ x
        → ancestor d (ancestor low (number_of_pages + j)) ≡ x
    step d low high p q = rw (← ancestor-add d low (number_of_pages + j), p) q

node_at-lt : (i : ℕ) (p : List Bool) → node_at i p < i * 2 ^ length p + 2 ^ length p
node_at-lt i [] = omega arith
node_at-lt i (false ∷ p) = rw pow-suc (omega (arith, node_at-lt (2 * i) p))
node_at-lt i (true ∷ p) = rw pow-suc (omega (arith, node_at-lt (2 * i + 1) p))

node_at-le : (i : ℕ) (p : List Bool) → i * 2 ^ length p ≤ node_at i p
node_at-le i [] = omega arith
node_at-le i (false ∷ p) = rw pow-suc (omega (arith, node_at-le (2 * i) p))
node_at-le i (true ∷ p) = rw pow-suc (omega (arith, node_at-le (2 * i + 1) p))

-- A block handed out for `pages` pages, at node `taken` of the tree.
pub record Block (pages : ℕ) (b b' : Buddy) (a : ℕ) : Type 0 where
  pub taken : ℕ
  pub in_tree : (0 < taken) × (taken ≤ heapsize)
  pub address : a ≡ b.base (taken - 1)
  pub free : node b taken ≡ 0
  pub full : node b' taken ≡ 2
  pub level : ℕ
  pub at_level : (2 ^ level ≤ taken) × (taken < 2 ^ suc level)
  pub deep : level ≤ 10
  pub fits : IsLog pages (10 - level)
  pub kept : (k : ℕ) → b.occupied k ≡ 2 → b'.occupied k ≡ 2
  pub apart : (n j : ℕ) → 0 < n → n ≤ heapsize → node b n ≡ 2 → HoldsPage taken j → ¬ HoldsPage n j

-- The heap that the kernel runs with: eleven levels, marked upwards.
pub record IsReady (b : Buddy) : Type 0 where
  pub heap : IsHeap b
  pub levels : b.heap_level ≡ 11

Found-in_tree :
    {d a : ℕ} {b b' : Buddy} (f : Found d 1 b b' a)
    → d ≤ 10
    → (2 ^ d ≤ node_at 1 f.path) × (node_at 1 f.path < 2 ^ suc d) × (node_at 1 f.path ≤ heapsize)
Found-in_tree {d} f le =
    let e = f.deep in
    let lo = node_at-le 1 f.path in
    let hi = node_at-lt 1 f.path in
    let top = pow_mono (suc d) 11 (omega arith) in
    (
      rw (← e) (omega (arith, lo)),
      rw (← e, pow-suc) (omega (arith, hi)),
      omega (arith, (rw e at hi), pow-suc 2 d, top),
    )

Found-IsReady : {d a : ℕ} {b b' : Buddy} → IsReady b → Found d 1 b b' a → IsReady b'
Found-IsReady r f = record {
  heap = record {
    based = λ k lt. rw f.same_base (r.heap.based k lt);
    small = f.small;
    up = λ n h le. f.up n h le (omega arith);
  };
  levels = rw f.same_level r.levels;
}

pub alloc_page-search :
    (pages : ℕ) {b : Buddy}
    → IsReady b
    → 0 < pages
    → pages ≤ number_of_pages
    → alloc_page pages b ≡ get_next_page (get_level pages b - 1) 1 b
unfolding alloc_page
alloc_page-search pages {b} r pos le =
    ground (arith, get_level-IsLog pages b 10 r.levels pos le, r.levels)

alloc_page-Outcome :
    (pages : ℕ) {b : Buddy}
    → IsReady b
    → 0 < pages
    → pages ≤ number_of_pages
    → Outcome (get_level pages b - 1) 1 b (alloc_page pages b)
alloc_page-Outcome pages {b} r pos le =
    let (lo, hi, log) = get_level-IsLog pages b 10 r.levels pos le in
    let top = pow_mono (suc (get_level pages b - 1)) 11 (omega (arith, r.levels, hi, lo)) in
    rw (alloc_page-search pages r pos le) (
      get_next_page-Outcome (get_level pages b - 1) 1 b r.heap (omega arith)
        (omega (arith, top, pow-suc 2 (get_level pages b - 1))))

Found-Block :
    (pages : ℕ) {a : ℕ} {b b' : Buddy}
    → IsReady b
    → Found (get_level pages b - 1) 1 b b' a
    → (1 ≤ get_level pages b)
      × (get_level pages b ≤ b.heap_level)
      × IsLog pages (b.heap_level - get_level pages b)
    → Block pages b b' a
Found-Block pages {b = b} r f (lo, hi, log) = record {
  taken = node_at 1 f.path;
  in_tree = (omega (arith, node_at-ge 1 f.path (omega arith)), inside.2);
  address = f.address;
  free = f.free;
  full = f.taken;
  level = get_level pages b - 1;
  at_level = (inside.0, inside.1);
  deep = omega (arith, r.levels);
  fits =
      let e : b.heap_level - get_level pages b ≡ 10 - (get_level pages b - 1) =
        omega (arith, r.levels) in
      rw e at log;
  kept = f.full;
  apart = λ n j pos le full mine other. elim (shared_page (node_at 1 f.path) n j mine other) [
    | inl (k, e) ↦ (Found-apart r.heap f n pos le full inside.2 k).0 e
    | inr (k, e) ↦ (Found-apart r.heap f n pos le full inside.2 k).1 e
  ];
}
  where
    inside :
        (2 ^ (get_level pages b - 1) ≤ node_at 1 f.path)
        × (node_at 1 f.path < 2 ^ suc (get_level pages b - 1))
        × (node_at 1 f.path ≤ heapsize)
    inside = Found-in_tree f (omega (arith, r.levels))

-- In a ready heap a request either gets NULL and changes nothing, or gets a block: its node was
-- empty and is full now, it holds the pages asked for and less than twice as many, and no page of
-- it lies in the block of a node that was full; full nodes stay full.
pub alloc_page-Block :
    (pages : ℕ) {b : Buddy}
    → IsReady b
    → 0 < pages
    → pages ≤ number_of_pages
    → (alloc_page pages b ≡ (0, b))
      ⊎ ((0 < (alloc_page pages b).0) × Block pages b (alloc_page pages b).1 (alloc_page pages b).0)
alloc_page-Block pages r pos le = elim (alloc_page-Outcome pages r pos le) [
  | inl (none_left, same, _) ↦ inl (λ i. (none_left i, same i))
  | inr (found, f) ↦ inr (found, Found-Block pages r f (get_level-IsLog pages _ 10 r.levels pos le))
]

-- A request for no page, or for more than the area has, gets NULL and changes nothing.
pub alloc_page-refused :
    (pages : ℕ) (b : Buddy)
    → ((pages == 0) || ltb number_of_pages pages) ≡ true
    → alloc_page pages b ≡ (0, b)
unfolding alloc_page
alloc_page-refused pages b h = rw h

-- Every request leaves the heap ready.
pub alloc_page-IsReady : (pages : ℕ) {b : Buddy} → IsReady b → IsReady (alloc_page pages b).1
alloc_page-IsReady pages {b} r = elim (Bool-cases ((pages == 0) || ltb number_of_pages pages)) [
  | inl refused ↦ rw (alloc_page-refused pages _ refused) r
  | inr fine ↦ elim (alloc_page-Outcome pages r (ground arith) (ground arith)) [
    | inl (_, same, _) ↦ rw same r
    | inr (_, f) ↦ Found-IsReady r f
  ]
]
