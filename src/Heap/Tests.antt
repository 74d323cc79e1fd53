-- ===== src/Heap/Tests.antt =====
-- A heap of three areas, and the theorems there.
use sistemas_operativos.Base.{
  ℕ, ◌-◌, ◌^◌, ◌≤◌, ◌≡◌, refl, arith, List, [], ◌∷◌, ◌++◌, inr, Option, none, some, update,
}
use sistemas_operativos.Scheduler.{running}
use sistemas_operativos.Scheduler.Tests.{pair}
use sistemas_operativos.Heap.{
  Block, Heap, kmalloc, free, allocate, find_first_free_block, take_block, align4, data_start,
}
use sistemas_operativos.Heap.Chain.{Area, IsChain}
use sistemas_operativos.Heap.FirstFit.{
  first_fit, allotted, taken, data_or_null, kmalloc-first_fit, kmalloc-taken,
}
use sistemas_operativos.Heap.Find.{start_of}
use sistemas_operativos.Heap.Free.{freed, free-freed}

abbrev block : ℕ → ℕ → ℕ → ℕ → Block
block size next prev unused = record { size = size; next = next; prev = prev; free = unused }

-- 200 free bytes from 1000 on, 40 in use, and 72 free ones up to 1396.
abbrev pub heap : Heap
heap = record {
  heap_base = 1000;
  kernel_base = 1000;
  blocks =
      update
        (update (update (λ a. block 0 0 0 0) 1000 (block 200 1228 0 1)) 1228 (block 40 1296 1000 0))
        1296 (block 72 0 1228 1);
  holders = λ a. record { heap = 1000; pages_index = 0; pages = λ i. 0 };
  sched = pair running running;
}

abbrev area : ℕ → ℕ → Area
area bytes unused = record { bytes = bytes; unused = unused }

abbrev areas : List Area
areas = area 200 1 ∷ area 40 0 ∷ area 72 1 ∷ []

areas-IsChain : IsChain heap.blocks 1000 1000 1396 areas
areas-IsChain = (refl, refl, refl, (refl, refl, refl, (refl, refl, refl, (refl, refl))))

kmalloc-first_fit_example :
    (m : ℕ → Block) × (kmalloc 4 37 heap
      ≡ some (data_or_null (first_fit (align4 37) 1000 areas), record heap { blocks = m }))
    × IsChain m 1000 1000 1396 (allotted (align4 37) areas)
kmalloc-first_fit_example =
    kmalloc-first_fit 4 37 1396 areas heap (omega arith) areas-IsChain (omega arith) (omega arith)
      (omega arith) (omega arith)

kmalloc-taken_example :
    (p z : ℕ) × (m : ℕ → Block) × (l' : List Area) × (before after : List (ℕ × ℕ)) × (kmalloc 4 37
        heap
      ≡ some (p, record heap { blocks = m }))
    × IsChain m 1000 1000 1396 l'
    × (taken 1000 areas ≡ before ++ after)
    × (taken 1000 l' ≡ before ++ (p, z) ∷ after)
    × (37 ≤ z)
kmalloc-taken_example =
    kmalloc-taken 4 37 1396 areas heap (omega arith) areas-IsChain (omega arith) (omega arith)
      (omega arith) (omega arith) (λ e. omega (arith, e))

-- The heap with its first area in use.
abbrev heap_in_use : Heap
heap_in_use = record heap {
  blocks =
      update
        (update (update (λ a. block 0 0 0 0) 1000 (block 200 1228 0 0)) 1228 (block 40 1296 1000 0))
        1296 (block 72 0 1228 1);
}

free-freed_example :
    (m : ℕ → Block) × (free 4 (data_start (start_of 1000 (area 200 0 ∷ []))) heap_in_use
      ≡ some (record heap_in_use { blocks = m }))
    × IsChain m 1000 1000 1396 ((area 200 0 ∷ []) ++ freed (area 40 0) (area 72 1) ++ [])
free-freed_example =
    free-freed 4 1396 (area 40 0) (area 72 1) (area 200 0 ∷ []) [] heap_in_use (omega arith)
      (refl, refl, refl, (refl, refl, refl, (refl, refl, refl, (refl, refl)))) (omega arith)
      (omega arith)
      (inr ((λ e. omega (arith, e)), (λ e. omega (arith, e)), (λ e. omega (arith, e))))

-- Two areas are taken out of the first one, then the first of them and the area of 40 bytes are
-- freed. The header in front of which the area of 40 bytes now lies is not the one that it names,
-- and the second area, which is in use, becomes a part of a free one.
abbrev step : Option (ℕ × Heap) → (Heap → Option Heap) → Option Heap
step none f = none
step (some (p, h)) f = f h

abbrev after_frees : Option Heap
after_frees = step (allocate 9 0 40 heap) (λ h₁.
    step (allocate 9 0 100 h₁)
      (λ h₂. elim (free 9 1028 h₂) [ none ↦ none | some h₃ ↦ free 9 1256 h₃ ]))

abbrev first_block : Option Heap → Option Block
first_block none = none
first_block (some h) = some (h.blocks 1000)

-- The first block is free and has 200 bytes again, from 1028 up to 1228, in which those of the
-- second area lie, from 1096 on.
swallowed : first_block after_frees ≡ some (block 200 1228 0 1)
unfolding free find_first_free_block take_block
swallowed = refl

-- A size close to 2 ^ 32 is rounded up to 0, and the first free area is taken for it.
rounded_to_nothing : (align4 (2 ^ 32 - 1) ≡ 0) × (first_fit (align4 (2 ^ 32 - 1)) 1000 areas ≡ 1000)
rounded_to_nothing = (refl, refl)
