-- ===== src/Buddy/Faults.antt =====
-- Kernel/buddyAllocator.c: two ways in which the marks stop telling what is in use.
use sistemas_operativos.Base.{
  ℕ, zero, suc, ◌+◌, ◌-◌, ◌*◌, ◌/◌, ◌%◌, ◌≤◌, ◌<◌, ◌≡◌, ◌≢◌, refl, arith, some, update, ap, ◌∙◌,
}
use sistemas_operativos.Buddy.Search.{IsHeap}
use sistemas_operativos.Buddy.Alloc.{IsReady, alloc_page-IsReady, alloc_page-search}
use sistemas_operativos.Buddy.{
  Buddy, node, mark, parent, sibling, heapsize, number_of_pages, page_size, base_memory,
  get_next_page, get_level, alloc_page, free_up_step, free_up, leaf_index, dealloc_page, dealloc_ok,
}

free_up_step-below : (i m : ℕ) (b : Buddy) → 1 < i → i ≤ m → node (free_up_step i b) m ≡ node b m
unfolding free_up_step
free_up_step-below i m b lo h = ground arith

-- Freeing upwards from node `i` leaves that node and all with a larger number as they are.
free_up-below : (fuel i m : ℕ) (b : Buddy) → 0 < i → i ≤ m → node (free_up fuel i b) m ≡ node b m
unfolding free_up
free_up-below zero i m b pos h = refl
free_up-below (suc fuel) i m b pos h =
    ground (arith, free_up-below fuel (parent i) m (free_up_step i b), free_up_step-below i m b)

-- A node that is still in use, under a parent that is marked partially full, beside an empty
-- sibling.
step_clears :
    (i : ℕ) (b : Buddy)
    → 1 < i
    → node b (parent i) ≡ 1
    → node b (sibling i) ≡ 0
    → node (free_up_step i b) (parent i) ≡ 0
unfolding free_up_step
step_clears i b lo up beside = ground arith

search_full : (d : ℕ) (b : Buddy) → node b 1 ≡ 2 → get_next_page d 1 b ≡ (0, b)
unfolding get_next_page
search_full zero b h = rw h
search_full (suc d) b h = rw h

-- The level of a request for half the area.
half_level : (b : Buddy) → b.heap_level ≡ 11 → get_level 512 b - 1 ≡ 1
unfolding get_level
half_level b h = rw h refl

half_search :
    (b : Buddy)
    → 0 < b.base 2
    → node b 1 ≢ 2
    → node b 2 ≡ 1
    → node b 3 ≡ 0
    → get_next_page 1 1 b ≡ (b.base 2, mark 1 2 (mark 3 2 b))
unfolding get_next_page
half_search b pos open_root used free = ground arith

-- When the left half of the area is in use in part and the right half is free, a request for 512
-- pages takes the right half and marks the whole area full: after it every request gets NULL,
-- though the left half still has free pages.
half_lost :
    (q : ℕ) {b : Buddy}
    → IsReady b
    → node b 1 ≢ 2
    → node b 2 ≡ 1
    → node b 3 ≡ 0
    → 0 < q
    → q ≤ number_of_pages
    → (alloc_page 512 b ≡ (b.base 2, mark 1 2 (mark 3 2 b)))
      × (alloc_page q (alloc_page 512 b).1 ≡ (0, (alloc_page 512 b).1))
half_lost q {b} r open_root used free pos le = (first, second)
  where
    first : alloc_page 512 b ≡ (b.base 2, mark 1 2 (mark 3 2 b))
    first =
        rw (alloc_page-search 512 r (omega arith) (omega arith), half_level b r.levels)
          (half_search b (r.heap.based 2 (omega arith)) open_root used free)

    root_full : node (alloc_page 512 b).1 1 ≡ 2
    root_full = rw first

    second : alloc_page q (alloc_page 512 b).1 ≡ (0, (alloc_page 512 b).1)
    second =
        rw (alloc_page-search q (alloc_page-IsReady 512 r) pos le)
          (search_full (get_level q (alloc_page 512 b).1 - 1) (alloc_page 512 b).1 root_full)

-- The heap after a page is freed: the leaf is empty and the marks above are updated.
abbrev after_free : ℕ → Buddy → Buddy
after_free n b = free_up n n (record b { occupied = update b.occupied (n - 1) 0 })

leaf_index-leaf :
    (n : ℕ)
    → 1024 ≤ n
    → n ≤ heapsize
    → leaf_index (base_memory + (n - 1024) * page_size) ≡ some (n - 1)
unfolding leaf_index
leaf_index-leaf n lo hi = ground arith

dealloc_page-leaf :
    (n : ℕ) (b : Buddy)
    → 1024 ≤ n
    → n ≤ heapsize
    → dealloc_page (base_memory + (n - 1024) * page_size) b ≡ some (dealloc_ok, after_free n b)
unfolding dealloc_page
dealloc_page-leaf n b lo hi = let e : n - 1 + 1 ≡ n = omega arith in rw (leaf_index-leaf n lo hi, e)

-- The second of two single pages that share a parent keeps the parent partially full.
first_step :
    (n : ℕ) (b : Buddy)
    → 4 ≤ n
    → n % 2 ≡ 0
    → node b (n + 1) ≡ 2
    → node b (n / 2) ≡ 2
    → free_up_step n b ≡ mark (n / 2) 1 b
unfolding free_up_step
first_step n b lo even twin up = ground arith

second_step :
    (m : ℕ) (b : Buddy)
    → 2 ≤ m
    → node b (m / 2) ≡ 1
    → node b (sibling m) ≡ 0
    → free_up_step m b ≡ mark (m / 2) 0 b
unfolding free_up_step
second_step m b lo up aunt = ground arith

free_up-two :
    (fuel n : ℕ) (b : Buddy)
    → 4 ≤ n
    → free_up (suc (suc fuel)) n b
      ≡ free_up fuel (n / 2 / 2) (free_up_step (n / 2) (free_up_step n b))
unfolding free_up
free_up-two fuel n b lo = ground arith

two_up :
    (n : ℕ) (b : Buddy)
    → 4 ≤ n
    → n % 2 ≡ 0
    → node b (n + 1) ≡ 2
    → node b (n / 2) ≡ 2
    → node b (n / 2 / 2) ≡ 1
    → node b (sibling (n / 2)) ≡ 0
    → (node (after_free n b) (n + 1) ≡ 2)
      × (node (after_free n b) (n / 2) ≡ 1)
      × (node (after_free n b) (n / 2 / 2) ≡ 0)
two_up n b lo even twin up above aunt = (
  keeps (n + 1) (omega arith) ∙ ground arith,
  keeps (n / 2) (omega arith) ∙ ground arith,
  keeps (n / 2 / 2) (omega arith) ∙ ground arith,
)
  where
    b0 : Buddy
    b0 = record b { occupied = update b.occupied (n - 1) 0 }

    b2 : Buddy
    b2 = mark (n / 2 / 2) 0 (mark (n / 2) 1 b0)

    steps : after_free n b ≡ free_up (n - 2) (n / 2 / 2) b2
    steps =
        let e : n ≡ suc (suc (n - 2)) = omega arith in
        ap (λ k. free_up k n b0) e
        ∙ free_up-two (n - 2) n b0 lo
        ∙ ap (free_up (n - 2) (n / 2 / 2)) (
            ap (free_up_step (n / 2)) (first_step n b0 lo even (ground arith) (ground arith))
            ∙ second_step (n / 2) (mark (n / 2) 1 b0) (omega arith) (ground arith) (ground arith))

    keeps : (m : ℕ) → n / 2 / 2 ≤ m → node (after_free n b) m ≡ node b2 m
    keeps m h = rw steps (free_up-below (n - 2) (n / 2 / 2) m b2 (omega arith) h)

-- Two single pages share a parent and are both in use, and the parent's sibling is free. Freeing
-- the first one marks the grandparent empty although the second one is still in use below it: the
-- marks no longer lead upwards, and a larger request may be given the page in use.
pub dealloc_page_clears :
    (n : ℕ) (b : Buddy)
    → 1024 ≤ n
    → n ≤ heapsize
    → n % 2 ≡ 0
    → node b (n + 1) ≡ 2
    → node b (n / 2) ≡ 2
    → node b (n / 2 / 2) ≡ 1
    → node b (sibling (n / 2)) ≡ 0
    → (b' : Buddy) × (dealloc_page (base_memory + (n - 1024) * page_size) b ≡ some (dealloc_ok, b'))
      × (node b' (n + 1) ≡ 2)
      × (node b' (n / 2 / 2) ≡ 0)
      × ¬ IsHeap b'
dealloc_page_clears n b lo hi even twin up above aunt =
    let (kept, half, cleared) = two_up n b (omega arith) even twin up above aunt in
    (
      after_free n b,
      dealloc_page-leaf n b lo hi,
      kept,
      cleared,
      λ v. v.up (n / 2) (omega arith) (omega arith) (omega (arith, half)) cleared,
    )
