-- ===== src/Buddy.antt =====
-- Kernel/buddyAllocator.c: a binary tree over the page area, node `index` at `index - 1` of the
-- arrays, its children at `2 * index` and `2 * index + 1`. An address is a number and NULL is 0.

pub mod Level
pub mod Search
pub mod Alloc
pub mod Requests
pub mod Create
pub mod Faults
pub mod Tests
use sistemas_operativos.Base.{
  ℕ, zero, suc, ◌+◌, ◌-◌, ◌*◌, ◌/◌, ◌%◌, ◌^◌, Bool, true, false, ◌&&◌, ◌||◌, if◌then◌else◌, ◌==◌,
  ltb, update, Option, none, some, neg, add32,
}

abbrev pub page_size : ℕ
page_size = 4096

abbrev pub memory : ℕ
memory = page_size * 1024

abbrev pub number_of_pages : ℕ
number_of_pages = 1024

abbrev pub heapsize : ℕ
heapsize = 2047

abbrev pub buddy_full : ℕ
buddy_full = 2

abbrev pub empty : ℕ
empty = 0

abbrev pub partially_full : ℕ
partially_full = 1

abbrev pub base_memory : ℕ
base_memory = 0x1000000

abbrev pub number_of_pages_to_alloc : ℕ → ℕ
number_of_pages_to_alloc size =
    if size % page_size == 0 then size / page_size else size / page_size + 1

abbrev pub lchild : ℕ → ℕ
lchild i = 2 * i

abbrev pub rchild : ℕ → ℕ
rchild i = 2 * i + 1

abbrev pub parent : ℕ → ℕ
parent i = i / 2

abbrev pub sibling : ℕ → ℕ
sibling i = if i % 2 == 0 then i + 1 else i - 1

-- `typeBuddyArray`; `occupied` is indexed from 0.
pub record Buddy : Type 0 where
  pub occupied : ℕ → ℕ
  pub base : ℕ → ℕ
  pub heap_level : ℕ

abbrev pub mark : ℕ → ℕ → Buddy → Buddy
mark index v b = record b { occupied = update b.occupied (index - 1) v }

-- The state of node `index`.
abbrev pub node : Buddy → ℕ → ℕ
node b index = b.occupied (index - 1)

unfoldable pub get_base_memory_with_index : ℕ → ℕ → ℕ → ℕ
get_base_memory_with_index i max_elements element = memory / max_elements * element + base_memory

-- The rounds of the `for` loop; `i` is the round, `n` the rounds left.
pub create_loop : ℕ → ℕ → ℕ → ℕ → ℕ → Buddy → Buddy
unfolding get_base_memory_with_index
create_loop zero i level elements max_elements b = record b { heap_level = level }
create_loop (suc n) i level elements max_elements b =
    let wrap = max_elements == elements in
    let elements' : ℕ = if wrap then 0 else elements in
    let max' : ℕ = if wrap then max_elements * 2 else max_elements in
    let level' : ℕ = if wrap then level + 1 else level in
    create_loop n (i + 1) level' (elements' + 1) max' (record b {
      occupied = update b.occupied i empty;
      base = update b.base i (get_base_memory_with_index (i + 1) max' elements');
    })

unfoldable pub create_heap : Buddy → Buddy
unfolding create_loop
create_heap b = create_loop heapsize 0 1 0 1 b

-- `getNextPageRecursive` with `level - currentLevel` levels to go down.
pub get_next_page : ℕ → ℕ → Buddy → ℕ × Buddy
get_next_page zero index b =
    if node b index == buddy_full
    then (0, b)
    else if node b index == partially_full
    then (0, b)
    else (b.base (index - 1), mark index buddy_full b)
get_next_page (suc d) index b =
    let left = get_next_page d (lchild index) b in
    let right = get_next_page d (rchild index) left.1 in
    if node b index == buddy_full
    then (0, b)
    else if left.0 == 0
    then if right.0 == 0
      then (0, right.1)
      else if node right.1 (rchild index) == buddy_full
      then (right.0, mark index buddy_full right.1)
      else right
    else (left.0, mark index partially_full left.1)

-- The `while` loop of `getLevel`, on fuel: it halves `rta` upwards and counts.
pub halvings : ℕ → ℕ → ℕ → ℕ
halvings zero rta i = i
halvings (suc fuel) rta i =
    let rest = halvings fuel (if rta % 2 == 0 then rta / 2 else rta / 2 + 1) (i + 1) in
    if rta == 1 then i else rest

unfoldable pub get_level : ℕ → Buddy → ℕ
unfolding halvings
get_level pages b = b.heap_level - halvings pages pages 0

unfoldable pub alloc_page : ℕ → Buddy → ℕ × Buddy
alloc_page pages b =
    if (pages == 0) || ltb number_of_pages pages
    then (0, b)
    else if ltb b.heap_level (get_level pages b)
    then (0, b)
    else get_next_page (get_level pages b - 1) 1 b

-- One round of `freeUpRecursive`: what a freed node does to its parent.
pub free_up_step : ℕ → Buddy → Buddy
free_up_step index b =
    let up = node b (parent index) in
    let next_to = node b (sibling index) in
    if (up == buddy_full) && (next_to == empty)
    then mark (parent index) empty b
    else if (up == buddy_full) && (next_to == buddy_full)
    then mark (parent index) partially_full b
    else if (up == partially_full) && (next_to == empty)
    then mark (parent index) empty b
    else b

-- The recursion halves `index` until it is 1, so `index` rounds are enough.
pub free_up : ℕ → ℕ → Buddy → Buddy
unfolding free_up_step
free_up zero index b = b
free_up (suc fuel) index b =
    let rest = free_up fuel (parent index) (free_up_step index b) in if index == 1 then b else rest

pub is_valid : ℕ → ℕ
is_valid page = 1

-- `(page - baseMemory)/PAGE_SIZE` as an `int`: the difference has 64 bits and a sign, and `/` goes
-- towards 0.
abbrev pub page_index : ℕ → ℕ
page_index page =
    let difference = (page + 2 ^ 64 - base_memory) % 2 ^ 64 in
    if ltb difference (2 ^ 63)
    then difference / page_size % 2 ^ 32
    else (2 ^ 32 - (2 ^ 64 - difference) / page_size % 2 ^ 32) % 2 ^ 32

-- The index in `occupied` that `deallocPage` computes; `none` if it lies outside the array.
pub leaf_index : ℕ → Option ℕ
leaf_index page =
    let index = add32 (page_index page) (heapsize / 2) in
    if ltb index heapsize then some index else none

abbrev pub dealloc_ok : ℕ
dealloc_ok = 0

-- `none` is a write outside the array.
unfoldable pub dealloc_page : ℕ → Buddy → Option (ℕ × Buddy)
unfolding is_valid leaf_index free_up
dealloc_page page b = if is_valid page == 0 then some (neg 1, b) else elim (leaf_index page) [
  | none ↦ none
  | some i ↦
      some (dealloc_ok, free_up (i + 1) (i + 1) (record b { occupied = update b.occupied i empty }))
]
