-- ===== src/Buddy/Tests.antt =====
-- Runs of the page allocator, and its theorems at concrete heaps.
use sistemas_operativos.Base.{
  ℕ, ◌+◌, ◌-◌, ◌*◌, ◌/◌, ◌≤◌, ◌<◌, ◌≡◌, ◌⊎◌, refl, arith, ◌^◌, some, [], ◌∷◌,
}
use sistemas_operativos.Buddy.Search.{IsHeap}
use sistemas_operativos.Buddy.Alloc.{IsReady, Block, alloc_page-Block}
use sistemas_operativos.Buddy.Requests.{requests, Disjoint, alloc_page_apart}
use sistemas_operativos.Buddy.Create.{create_heap-IsReady}
use sistemas_operativos.Buddy.Faults.{dealloc_page_clears}
use sistemas_operativos.Buddy.{
  Buddy, node, create_heap, alloc_page, get_level, base_memory, dealloc_page, get_next_page, memory,
  dealloc_ok,
}

abbrev blank : Buddy
blank = record { occupied = λ k. 7; base = λ k. 0; heap_level = 0 }

-- The heap after start-up, and after requests for one page.
abbrev pub fresh : Buddy
fresh = create_heap blank

abbrev one_page : Buddy
one_page = (alloc_page 1 fresh).1

abbrev two_pages : Buddy
two_pages = (alloc_page 1 one_page).1

pub fresh-IsReady : IsReady fresh
fresh-IsReady = (create_heap-IsReady blank).0

first_addresses : ((alloc_page 1 fresh).0 ≡ 0x1000000) × ((alloc_page 3 one_page).0 ≡ 0x1004000)
unfolding create_heap alloc_page get_level get_next_page
first_addresses = (refl, refl)

-- One, one, two and two pages, one after another.
pub four_addresses :
    ((alloc_page 1 fresh).0 ≡ 0x1000000)
    × ((alloc_page 1 (alloc_page 1 fresh).1).0 ≡ 0x1001000)
    × ((alloc_page 2 (alloc_page 1 (alloc_page 1 fresh).1).1).0 ≡ 0x1002000)
    × ((alloc_page 2 (alloc_page 2 (alloc_page 1 (alloc_page 1 fresh).1).1).1).0 ≡ 0x1004000)
unfolding create_heap alloc_page get_level get_next_page
four_addresses = (refl, refl, refl, refl)

create_heap-IsReady_example :
    IsReady fresh
    × ((l e : ℕ)
        → l ≤ 10
        → e < 2 ^ l
        → fresh.base (2 ^ l + e - 1) ≡ memory / 2 ^ l * e + base_memory)
create_heap-IsReady_example = create_heap-IsReady blank

alloc_page-Block_example :
    (alloc_page 3 fresh ≡ (0, fresh))
    ⊎ ((0 < (alloc_page 3 fresh).0) × Block 3 fresh (alloc_page 3 fresh).1 (alloc_page 3 fresh).0)
alloc_page-Block_example = alloc_page-Block 3 fresh-IsReady (omega arith) (omega arith)

two_addresses :
    ((alloc_page 1 fresh).0 ≡ 0x1000000)
    × ((alloc_page 2 (requests (3 ∷ []) (alloc_page 1 fresh).1)).0 ≡ 0x1008000)
unfolding create_heap alloc_page get_level get_next_page
two_addresses = (refl, refl)

alloc_page_apart_example :
    (first : Block 1 fresh (alloc_page 1 fresh).1 (alloc_page 1 fresh).0) × (second : Block 2
      (requests (3 ∷ []) (alloc_page 1 fresh).1)
      (alloc_page 2 (requests (3 ∷ []) (alloc_page 1 fresh).1)).1
      (alloc_page 2 (requests (3 ∷ []) (alloc_page 1 fresh).1)).0)
    × Disjoint first.taken second.taken
    × IsReady (alloc_page 2 (requests (3 ∷ []) (alloc_page 1 fresh).1)).1
alloc_page_apart_example =
    alloc_page_apart 1 2 (3 ∷ []) fresh-IsReady (omega (arith, two_addresses.0))
      (omega (arith, two_addresses.1))

dealloc_page_clears_example :
    (b' : Buddy) × (dealloc_page base_memory two_pages ≡ some (dealloc_ok, b'))
    × (node b' 1025 ≡ 2)
    × (node b' 256 ≡ 0)
    × ¬ IsHeap b'
unfolding create_heap alloc_page get_level get_next_page
dealloc_page_clears_example =
    dealloc_page_clears 1024 two_pages (omega arith) (omega arith) refl refl refl refl refl
