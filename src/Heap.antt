-- ===== src/Heap.antt =====
-- Kernel/malloc.c: heaps as chains of blocks. Memory is typed: `blocks` gives the header that lies
-- at an address, and what callers write to their data does not change headers. Addresses are
-- 64 bits wide and sizes 32, since `size_t` is an `unsigned int` in Kernel/include/types.h; NULL is
-- 0. The loops along `next` are on fuel, `none` if it runs out.
pub mod Chain
pub mod Take
pub mod FirstFit
pub mod Find
pub mod Free
pub mod Tests
use sistemas_operativos.Base.{
  ℕ, zero, suc, ◌+◌, ◌-◌, ◌*◌, ◌/◌, ◌%◌, ◌^◌, Bool, true, false, ◌&&◌, ◌||◌, not, if◌then◌else◌,
  ◌==◌, ltb, update, Option, none, some,
}
use sistemas_operativos.Buddy.{Buddy, alloc_page, number_of_pages_to_alloc, page_size}
use sistemas_operativos.Scheduler.{Sched, null, get_current_process, get_process_by_id}

abbrev pub kernel_heap_start : ℕ
kernel_heap_start = 0x4000

abbrev pub kernel_heap_size : ℕ
kernel_heap_size = page_size * 17

abbrev pub block_struct_size : ℕ
block_struct_size = 28

-- With the padding behind the first byte of data.
abbrev pub block_sizeof : ℕ
block_sizeof = 32

abbrev pub max_pages_per_process : ℕ
max_pages_per_process = 10

abbrev pub align4 : ℕ → ℕ
align4 x = ((x + (2 ^ 32 - 1)) % 2 ^ 32 / 4 * 4 + 4) % 2 ^ 32

pub record Block : Type 0 where
  pub size : ℕ
  pub next : ℕ
  pub prev : ℕ
  pub free : ℕ

-- What the heap knows of a process.
pub record Holder : Type 0 where
  pub heap : ℕ
  pub pages_index : ℕ
  pub pages : ℕ → ℕ

pub record Heap : Type 0 where
  pub heap_base : ℕ
  pub kernel_base : ℕ
  pub blocks : ℕ → Block
  pub holders : ℕ → Holder
  pub sched : Sched

abbrev pub data_start : ℕ → ℕ
data_start b = b + block_struct_size

-- The loop of `findFirstFreeBlock`.
pub find_first_free_block : ℕ → (ℕ → Block) → ℕ → ℕ → Option ℕ
find_first_free_block zero m current size = none
find_first_free_block (suc fuel) m current size =
    let rest = find_first_free_block fuel m (m current).next size in
    if not (current == null) && not (not ((m current).free == 0) && ltb size (m current).size)
    then rest
    else some current

unfoldable pub split_block : ℕ → ℕ → (ℕ → Block) → ℕ → Block
split_block block size m =
    let new_block = (data_start block + size) % 2 ^ 64 in
    let fresh : Block = record {
      size = ((m block).size + 2 ^ 32 - (size + block_struct_size) % 2 ^ 32) % 2 ^ 32;
      next = (m block).next;
      prev = block;
      free = 1;
    } in
    if ltb (m block).size size
    then m
    else update (update m new_block fresh) block
        (record (m block) { next = new_block; size = size })

-- Splitting, and taking what is in front.
unfoldable pub take_block : ℕ → ℕ → (ℕ → Block) → ℕ → Block
unfolding split_block
take_block b s m =
    let m' =
      if ltb ((s + 4 + block_struct_size) % 2 ^ 32) (m b).size then split_block b s m else m in
    update m' b (record (m' b) { free = 0 })

unfoldable pub initialize_kernel_heap : Heap → Heap
initialize_kernel_heap h =
    let first : Block = record { size = kernel_heap_size; next = null; prev = null; free = 1 } in
    record h { kernel_base = kernel_heap_start; blocks = update h.blocks kernel_heap_start first }

unfoldable pub kmalloc : ℕ → ℕ → Heap → Option (ℕ × Heap)
unfolding find_first_free_block take_block
kmalloc fuel size h =
    let s = align4 size in
    if h.kernel_base == null
    then some (kernel_heap_start, h)
    else if size == 0
    then some (null, h)
    else elim (find_first_free_block fuel h.blocks h.kernel_base s) [
      | none ↦ none
      | some b ↦
          if b == null
          then some (null, h)
          else some (data_start b, record h { blocks = take_block b s h.blocks })
    ]

unfoldable pub add_pages_to_process : ℕ → ℕ → Heap → Heap
add_pages_to_process page_base pid h =
    let p = get_process_by_id pid h.sched in
    let owner = h.holders p in
    if (p == null) || not (ltb owner.pages_index max_pages_per_process) then h else record h {
      holders = update h.holders p (record owner {
        pages = update owner.pages owner.pages_index page_base;
        pages_index = owner.pages_index + 1;
      });
    }

pub find_last_in_heap : ℕ → (ℕ → Block) → ℕ → Option ℕ
find_last_in_heap zero m current = none
find_last_in_heap (suc fuel) m current =
    let rest = find_last_in_heap fuel m (m current).next in
    if (m current).next == null then some current else rest

abbrev pub pages_for : ℕ → ℕ
pages_for size = number_of_pages_to_alloc ((size + block_struct_size) % 2 ^ 32)

-- The new block as the first of the heap of `p`, or as the last behind those that are there.
abbrev pub attach : ℕ → ℕ → ℕ → Heap → Option Heap
attach fuel new_block p h =
    let owner = h.holders p in
    let first : Heap = record h {
      heap_base = new_block;
      blocks = update h.blocks new_block (record (h.blocks new_block) { prev = null });
      holders = update h.holders p (record owner { heap = new_block });
    } in
    let behind : Option Heap = elim (find_last_in_heap fuel h.blocks h.heap_base) [
      | none ↦ none
      | some last ↦
          let m = update h.blocks last (record (h.blocks last) { next = new_block }) in
          some (record h { blocks = update m new_block (record (m new_block) { prev = last }) })
    ] in
    if h.heap_base == null then some first else behind

unfoldable pub extend_heap : ℕ → ℕ → ℕ → Heap → Option (ℕ × Heap)
unfolding add_pages_to_process find_last_in_heap
extend_heap fuel size p h =
    let (new_block, buddy) = alloc_page (pages_for size) h.sched.heap in
    let fresh : Block = record {
      size = (pages_for size * page_size + 2 ^ 32 - block_struct_size) % 2 ^ 32;
      next = null;
      prev = (h.blocks new_block).prev;
      free = 1;
    } in
    let h' : Heap = record h {
      blocks = update h.blocks new_block fresh;
      sched = record h.sched { heap = buddy };
    } in
    elim (attach fuel new_block p h') [
      | none ↦ none
      | some h'' ↦ some (new_block, add_pages_to_process new_block (h''.sched.processes p).pid h'')
    ]

-- The second half of `mallock`; `stray` is what lies where the argument would be that its second
-- call of `extendHeap` leaves out.
abbrev pub allocate : ℕ → ℕ → ℕ → Heap → Option (ℕ × Heap)
allocate fuel stray size h =
    let s = align4 size in
    let found : Option (ℕ × Heap) = elim (find_first_free_block fuel h.blocks h.heap_base s) [
      | none ↦ none
      | some b ↦ if b == null then extend_heap fuel size stray h else some (b, h)
    ] in
    elim found [
      | none ↦ none
      | some (b, h') ↦ some (data_start b, record h' { blocks = take_block b s h'.blocks })
    ]

unfoldable pub mallock : ℕ → ℕ → ℕ → Heap → Option (ℕ × Heap)
unfolding extend_heap find_first_free_block take_block
mallock fuel stray size h =
    let p = get_current_process h.sched in
    let h' : Heap = record h { heap_base = (h.holders p).heap } in
    let extended : Option (ℕ × Heap) =
      if h'.heap_base == null then extend_heap fuel size p h' else some (null, h') in
    if p == null
    then some
        (h.kernel_base, record h { kernel_base = (h.kernel_base + size * block_sizeof) % 2 ^ 64 })
    else if size == 0
    then some (null, h')
    else elim extended [ none ↦ none | some (b, h'') ↦ allocate fuel stray size h'' ]

unfoldable pub is_valid_address : ℕ → Heap → Bool
is_valid_address p h = not ((p == null) || ltb p (data_start h.heap_base))

-- The loop of `getBlock`.
pub get_block : ℕ → (ℕ → Block) → ℕ → ℕ → Option ℕ
get_block zero m current p = none
get_block (suc fuel) m current p =
    let rest = get_block fuel m (m current).next p in
    if not (current == null) && ltb (m current).next p then rest else some current

unfoldable pub merge_blocks : ℕ → (ℕ → Block) → ℕ → Block
merge_blocks first m =
    let second = m (m first).next in
    update m first (record (m first) {
      size = ((m first).size + second.size + block_struct_size) % 2 ^ 32;
      next = second.next;
    })

unfoldable pub merge_behind : ℕ → (ℕ → Block) → ℕ → Block
unfolding merge_blocks
merge_behind b m =
    if not ((m b).next == null) && ((m (m b).next).free == 1) then merge_blocks b m else m

unfoldable pub merge_in_front : ℕ → (ℕ → Block) → ℕ → Block
unfolding merge_blocks
merge_in_front b m =
    if not ((m b).prev == null) && ((m (m b).prev).free == 1) then merge_blocks (m b).prev m else m

unfoldable pub free_block : ℕ → (ℕ → Block) → ℕ → Block
unfolding merge_behind merge_in_front
free_block b m = merge_in_front b (merge_behind b (update m b (record (m b) { free = 1 })))

unfoldable pub free : ℕ → ℕ → Heap → Option Heap
unfolding is_valid_address get_block free_block
free fuel p h =
    if not (is_valid_address p h) then some h else elim (get_block fuel h.blocks h.heap_base p) [
      | none ↦ none
      | some b ↦ if b == null then some h else some (record h { blocks = free_block b h.blocks })
    ]
