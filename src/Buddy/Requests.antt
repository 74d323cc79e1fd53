-- ===== src/Buddy/Requests.antt =====
-- Kernel/buddyAllocator.c, `allocPage`: what is handed out over many requests.
use sistemas_operativos.Base.{
  ℕ, ◌-◌, ◌<◌, ◌≤◌, ◌≡◌, ap, arith, List, [], ◌∷◌, Bool-cases, inl, inr, ◌==◌, ◌||◌, ltb,
}
use sistemas_operativos.Buddy.Alloc.{
  Block, IsReady, HoldsPage, alloc_page-Block, alloc_page-IsReady, alloc_page-refused,
}
use sistemas_operativos.Buddy.{Buddy, alloc_page, number_of_pages, heapsize}

-- The heap after requests for so many pages each.
abbrev pub requests : List ℕ → Buddy → Buddy
requests [] b = b
requests (pages ∷ later) b = requests later (alloc_page pages b).1

-- No page lies in the blocks of both nodes.
abbrev pub Disjoint : ℕ → ℕ → Type 0
Disjoint m n = (j : ℕ) → HoldsPage m j → ¬ HoldsPage n j

-- A request that does not get NULL gets a block.
pub alloc_page-granted :
    (pages : ℕ) {b : Buddy}
    → IsReady b
    → 0 < (alloc_page pages b).0
    → Block pages b (alloc_page pages b).1 (alloc_page pages b).0
alloc_page-granted pages {b} r some_page =
    elim (Bool-cases ((pages == 0) || ltb number_of_pages pages)) [
      | inl refused ↦ absurd (
          omega
            (arith, some_page, ap (λ (x : ℕ × Buddy). x.0) (alloc_page-refused pages b refused)))
      | inr fine ↦ elim (alloc_page-Block pages r (ground arith) (ground arith)) [
        | inl nothing ↦ absurd (omega (arith, some_page, ap (λ (x : ℕ × Buddy). x.0) nothing))
        | inr (_, block) ↦ block
      ]
    ]

-- Full nodes stay full, whether or not a request is granted.
pub alloc_page-keeps :
    (pages : ℕ) {b : Buddy}
    → IsReady b
    → (k : ℕ) → b.occupied k ≡ 2
    → (alloc_page pages b).1.occupied k ≡ 2
alloc_page-keeps pages {b} r k full =
    elim (Bool-cases ((pages == 0) || ltb number_of_pages pages)) [
      | inl refused ↦ rw (alloc_page-refused pages b refused) full
      | inr fine ↦ elim (alloc_page-Block pages r (ground arith) (ground arith)) [
        | inl nothing ↦ rw nothing full
        | inr (_, block) ↦ block.kept k full
      ]
    ]

-- The block of a node that was full before has no page in common with one that is handed out.
pub Block-Disjoint :
    {pages : ℕ} {b b' : Buddy} {a : ℕ} (block : Block pages b b' a) (n : ℕ)
    → (0 < n) × (n ≤ heapsize)
    → b.occupied (n - 1) ≡ 2
    → Disjoint n block.taken
Block-Disjoint block n (some_node, in_tree) full j mine other =
    block.apart n j some_node in_tree full other mine

requests-IsReady : (later : List ℕ) {b : Buddy} → IsReady b → IsReady (requests later b)
requests-IsReady [] r = r
requests-IsReady (pages ∷ later) r = requests-IsReady later (alloc_page-IsReady pages r)

requests-keeps :
    (later : List ℕ) {b : Buddy}
    → IsReady b
    → (k : ℕ) → b.occupied k ≡ 2
    → (requests later b).occupied k ≡ 2
requests-keeps [] r k full = full
requests-keeps (pages ∷ later) r k full =
    requests-keeps later (alloc_page-IsReady pages r) k (alloc_page-keeps pages r k full)

-- In a ready heap two requests that do not get NULL, whatever requests are made between them, get
-- blocks with the pages that they ask for and without a common page; the heap is ready for more.
pub alloc_page_apart :
    (p q : ℕ) (between : List ℕ) {b : Buddy}
    → IsReady b
    → 0 < (alloc_page p b).0
    → 0 < (alloc_page q (requests between (alloc_page p b).1)).0
    → (first : Block p b (alloc_page p b).1 (alloc_page p b).0) × (second : Block q
        (requests between (alloc_page p b).1)
        (alloc_page q (requests between (alloc_page p b).1)).1
        (alloc_page q (requests between (alloc_page p b).1)).0)
      × Disjoint first.taken second.taken
      × IsReady (alloc_page q (requests between (alloc_page p b).1)).1
alloc_page_apart p q between r got_first got_second =
    let r₁ = alloc_page-IsReady p r in
    let r₂ = requests-IsReady between r₁ in
    let first = alloc_page-granted p r got_first in
    let second = alloc_page-granted q r₂ got_second in
    let still_full = requests-keeps between r₁ (first.taken - 1) first.full in
    (
      first,
      second,
      Block-Disjoint second first.taken first.in_tree still_full,
      alloc_page-IsReady q r₂,
    )
