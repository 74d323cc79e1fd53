-- ===== src/Heap/Free.antt =====
-- Kernel/malloc.c, `free`: what becomes of the row of areas.
use mathlib.Core.Path.{fun_ext, subst}
use sistemas_operativos.Base.{
  ℕ, ◌+◌, ◌%◌, ◌^◌, ◌≤◌, ◌<◌, ◌≡◌, ◌≢◌, refl, sym, ap, ◌∙◌, arith, List, [], ◌∷◌, ◌++◌, length,
  true, false, if◌then◌else◌, ◌==◌, Bool-cases, inl, inr, update, update_self, update_ne, ==_ne,
  ==_self, ◌⊎◌, some,
}
use sistemas_operativos.Scheduler.{null}
use sistemas_operativos.Heap.{
  Block, Heap, free, free_block, merge_behind, merge_in_front, merge_blocks, is_valid_address,
  data_start, block_struct_size,
}
use sistemas_operativos.Heap.Chain.{
  Area, IsChain, behind, IsChain-le, IsChain-cons, IsChain-keep, IsChain-ext,
}
use sistemas_operativos.Heap.Find.{start_of, start_of-le, get_block-start_of}

-- The block in front, as the header says, is none or in use, so that nothing is merged with it.
abbrev pub IsApart : (ℕ → Block) → ℕ → Type 0
IsApart m b =
    ((m b).prev ≡ null) ⊎ (((m b).prev ≢ null) × (b ≢ (m b).prev) × ((m (m b).prev).free ≢ 1))

merge_in_front-apart : (m : ℕ → Block) (b : ℕ) → IsApart m b → merge_in_front b m ≡ m
unfolding merge_in_front
merge_in_front-apart m b (inl none_before) = rw none_before
merge_in_front-apart m b (inr (some_before, ne, busy)) =
    rw (==_ne (m b).prev null some_before, ==_ne (m (m b).prev).free 1 busy)

-- The header that the freed block has in the end.
abbrev freed_header : (ℕ → Block) → ℕ → Block
freed_header m b =
    let n = (m b).next in
    if (m n).free == 1
    then record {
      size = ((m b).size + (m n).size + block_struct_size) % 2 ^ 32;
      next = (m n).next;
      prev = (m b).prev;
      free = 1;
    }
    else record (m b) { free = 1 }

freed_header-prev : (m : ℕ → Block) (b : ℕ) → (freed_header m b).prev ≡ (m b).prev
freed_header-prev m b = elim (Bool-cases ((m (m b).next).free == 1)) [
  | inl idle ↦ rw idle
  | inr used ↦ rw used
]

IsApart-update :
    (m : ℕ → Block) (b : ℕ) (v : Block)
    → v.prev ≡ (m b).prev
    → IsApart m b
    → IsApart (update m b v) b
IsApart-update m b v same apart =
    let e : (update m b v b).prev ≡ (m b).prev =
      ap (λ (x : Block). x.prev) (update_self m b v) ∙ same in
    elim apart [
      | inl none_before ↦ inl (e ∙ none_before)
      | inr (some_before, ne, busy) ↦
          let f : (update m b v (update m b v b).prev).free ≡ (m (m b).prev).free =
            ap (λ (n : ℕ). (update m b v n).free) e
            ∙ ap (λ (x : Block). x.free) (update_ne m b (m b).prev v ne) in
          inr ((λ z. some_before (sym e ∙ z)), (λ z. ne (z ∙ e)), (λ z. busy (sym f ∙ z)))
    ]

merge_behind-update :
    (m : ℕ → Block) (b y : ℕ)
    → (m b).next ≢ null
    → b ≢ (m b).next
    → merge_behind b (update m b (record (m b) { free = 1 })) y ≡ update m b (freed_header m b) y
unfolding merge_behind merge_blocks
merge_behind-update m b y some_next other = elim (Bool-cases ((m (m b).next).free == 1)) [
  | inl idle ↦
      rw (==_self b, ==_ne (m b).next null some_next, ==_ne b (m b).next other, idle)
        (elim (Bool-cases (b == y)) [ inl here ↦ rw here | inr there ↦ rw there ])
  | inr used ↦ rw (==_self b, ==_ne (m b).next null some_next, ==_ne b (m b).next other, used)
]

free_block-update :
    (m : ℕ → Block) (b : ℕ)
    → (m b).next ≢ null
    → b ≢ (m b).next
    → IsApart m b
    → free_block b m ≡ update m b (freed_header m b)
unfolding free_block
free_block-update m b some_next other apart =
    rw (fun_ext (λ y. merge_behind-update m b y some_next other)) (
      merge_in_front-apart (update m b (freed_header m b)) b
        (IsApart-update m b (freed_header m b) (freed_header-prev m b) apart))

-- The area `x` freed in front of the area `y`.
abbrev pub freed : Area → Area → List Area
freed x y =
    if y.unused == 1
    then record { bytes = x.bytes + y.bytes + block_struct_size; unused = 1 } ∷ []
    else record { bytes = x.bytes; unused = 1 } ∷ y ∷ []

freed_front-IsChain :
    (m : ℕ → Block) (pos e : ℕ) (x y : Area) (after : List Area)
    → IsChain m pos pos e (x ∷ y ∷ after)
    → e < 2 ^ 32
    → IsChain (update m pos (freed_header m pos)) pos pos e (freed x y ++ after)
freed_front-IsChain m pos e x y after h top =
    let m' : ℕ → Block = update m pos (freed_header m pos) in
    let n : ℕ = behind pos x in
    let here : m' pos ≡ freed_header m pos = update_self m pos (freed_header m pos) in
    let le = IsChain-le m (m n).next (behind n y) e after h.3.3 in
    elim (Bool-cases (y.unused == 1)) [
      | inl idle ↦
          let z : ℕ = x.bytes + y.bytes + block_struct_size in
          let b : Block = record { size = z; next = (m n).next; prev = (m pos).prev; free = 1 } in
          let small : z % 2 ^ 32 ≡ z = omega (arith, le) in
          let header : freed_header m pos ≡ b = rw (h.3.0, h.3.2, idle, h.1, h.3.1, small) in
          let end_ : behind n y ≡ pos + block_struct_size + z = omega arith in
          let rest =
            IsChain-ext m m' (m n).next (behind n y) e after
              (λ q low. update_ne m pos q (freed_header m pos) (λ c. omega (arith, c))) h.3.3 in
          rw idle (
            IsChain-cons m' pos e b after (here ∙ header)
              (subst (λ p. IsChain m' (m n).next p e after) end_ rest))
      | inr used ↦
          let b : Block = record { size = x.bytes; next = n; prev = (m pos).prev; free = 1 } in
          let header : freed_header m pos ≡ b = rw (h.3.0, h.3.2, used, h.1) in
          let rest =
            IsChain-ext m m' n n e (y ∷ after)
              (λ q low. update_ne m pos q (freed_header m pos) (λ c. omega (arith, c)))
              (refl, h.3.1, h.3.2, h.3.3) in
          rw used (IsChain-cons m' pos e b (y ∷ after) (here ∙ header) rest)
    ]

freed-IsChain :
    (m : ℕ → Block) (a pos e : ℕ) (x y : Area) (before after : List Area)
    → IsChain m a pos e (before ++ x ∷ y ∷ after)
    → e < 2 ^ 32
    → IsChain
        (update m (start_of pos before) (freed_header m (start_of pos before)))
        a
        pos
        e
        (before ++ freed x y ++ after)
freed-IsChain m a pos e x y [] after h top =
    rw (h.0) (freed_front-IsChain m pos e x y after (refl, h.1, h.2, h.3) top)
freed-IsChain m a pos e x y (z ∷ before) after h top =
    let b : ℕ = start_of (behind pos z) before in
    let le = start_of-le (behind pos z) before in
    let there : update m b (freed_header m b) pos ≡ m pos =
      update_ne m b pos (freed_header m b) (λ c. omega (arith, c, le)) in
    IsChain-keep m (update m b (freed_header m b)) a pos e z (before ++ freed x y ++ after) there
      h.0 h.1 h.2 (freed-IsChain m (m pos).next (behind pos z) e x y before after h.3 top)

valid_address :
    (b : ℕ) (h : Heap)
    → 0 < h.heap_base
    → h.heap_base ≤ b
    → is_valid_address (data_start b) h ≡ true
unfolding is_valid_address
valid_address b h low le = ground arith

next_of :
    (m : ℕ → Block) (a pos e : ℕ) (x y : Area) (before after : List Area)
    → IsChain m a pos e (before ++ x ∷ y ∷ after)
    → (m (start_of pos before)).next ≡ behind (start_of pos before) x
next_of m a pos e x y [] after h = h.3.0
next_of m a pos e x y (z ∷ before) after h =
    next_of m (m pos).next (behind pos z) e x y before after h.3

-- In a heap whose blocks lie without a gap up to `e`, below 2 ^ 32, with rounds for all of them,
-- `free` of the data of a block that is not the last one, and in front of which its header names no
-- block or one in use, ends. Afterwards the blocks lie without a gap up to `e` again: the area is free, it has
-- become one with the next if that is free, and the others are as before.
pub free-freed :
    (fuel e : ℕ) (x y : Area) (before after : List Area) (h : Heap)
    → 0 < h.heap_base
    → IsChain h.blocks h.heap_base h.heap_base e (before ++ x ∷ y ∷ after)
    → e < 2 ^ 32
    → length before < fuel
    → IsApart h.blocks (start_of h.heap_base before)
    → (m : ℕ → Block) × (free fuel (data_start (start_of h.heap_base before)) h
        ≡ some (record h { blocks = m }))
      × IsChain m h.heap_base h.heap_base e (before ++ freed x y ++ after)
unfolding free
free-freed fuel e x y before after h low chain top enough apart =
    let b : ℕ = start_of h.heap_base before in
    let le = start_of-le h.heap_base before in
    let next = next_of h.blocks h.heap_base h.heap_base e x y before after chain in
    let valid : is_valid_address (data_start b) h ≡ true = valid_address b h low le in
    let there : (b == null) ≡ false = ==_ne b null (λ c. omega (arith, c, le)) in
    let found =
      get_block-start_of fuel h.blocks h.heap_base h.heap_base e x y before after chain low
        enough in
    let whole =
      free_block-update h.blocks b (λ c. omega (arith, c, next)) (λ c. omega (arith, c, next))
        apart in
    (
      update h.blocks b (freed_header h.blocks b),
      rw (valid, found, there, whole),
      freed-IsChain h.blocks h.heap_base h.heap_base e x y before after chain top,
    )
