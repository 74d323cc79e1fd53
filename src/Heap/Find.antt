-- ===== src/Heap/Find.antt =====
-- Kernel/malloc.c, `free`: which block it frees.
use sistemas_operativos.Base.{
  ℕ, zero, suc, ◌+◌, ◌≤◌, ◌<◌, ◌≡◌, arith, List, [], ◌∷◌, ◌++◌, length, true, false, ◌==◌, ltb,
  Bool-cases, inl, inr, ==_ne, some,
}
use sistemas_operativos.Scheduler.{null}
use sistemas_operativos.Heap.{
  Block, Heap, get_block, free, is_valid_address, data_start, block_struct_size,
}
use sistemas_operativos.Heap.Chain.{Area, IsChain, behind}

last_start :
    (m : ℕ → Block) (a pos e : ℕ) (x : Area) (l : List Area)
    → IsChain m a pos e (l ++ x ∷ [])
    → (a ≡ pos) × (pos + block_struct_size + x.bytes ≤ e)
last_start m a pos e x [] h = (h.0, omega (arith, h.3.1))
last_start m a pos e x (y ∷ l) h =
    (h.0, omega (arith, (last_start m (m pos).next (behind pos y) e x l h.3).1))

get_block-last :
    (fuel : ℕ) (m : ℕ → Block) (a pos e p : ℕ) (x : Area) (l : List Area)
    → IsChain m a pos e (l ++ x ∷ [])
    → 0 < pos
    → e < p + block_struct_size + x.bytes
    → suc (length l) < fuel
    → get_block fuel m a p ≡ some null
unfolding get_block
get_block-last zero m a pos e p x l h low past enough = absurd (omega arith)
get_block-last (suc zero) m a pos e p x l h low past enough = absurd (omega arith)
get_block-last (suc (suc fuel)) m a pos e p x [] h low past enough =
    let c₁ : (pos == null) ≡ false = ==_ne pos null (λ q. omega (arith, q)) in
    let c₂ : ltb null p ≡ true = ground (arith, h.3.1) in rw (h.0, h.3.0, c₁, c₂)
get_block-last (suc fuel) m a pos e p x (y ∷ l) h low past enough =
    let next = last_start m (m pos).next (behind pos y) e x l h.3 in
    let c₁ : (pos == null) ≡ false = ==_ne pos null (λ q. omega (arith, q)) in
    let c₂ : ltb (m pos).next p ≡ true = ground (arith, next.0, next.1) in
    let ih =
      get_block-last fuel m (m pos).next (behind pos y) e p x l h.3 (omega arith) past
        (omega arith) in
    rw (h.0, c₁, c₂) ih

-- In a heap whose blocks lie without a gap up to `e`, with rounds for all of them, `free` of an
-- address behind the start of the last block changes nothing: the last block is never freed.
free_last :
    (fuel p e : ℕ) (l : List Area) (x : Area) (h : Heap)
    → 0 < h.heap_base
    → IsChain h.blocks h.heap_base h.heap_base e (l ++ x ∷ [])
    → e < p + block_struct_size + x.bytes
    → suc (length l) < fuel
    → free fuel p h ≡ some h
unfolding free
free_last fuel p e l x h low chain past enough =
    let found =
      get_block-last fuel h.blocks h.heap_base h.heap_base e p x l chain low past enough in
    elim (Bool-cases (is_valid_address p h)) [
      | inl valid ↦ rw (valid, found)
      | inr invalid ↦ rw invalid
    ]

-- The address behind areas.
abbrev pub start_of : ℕ → List Area → ℕ
start_of pos [] = pos
start_of pos (x ∷ l) = start_of (behind pos x) l

pub start_of-le : (pos : ℕ) (l : List Area) → pos ≤ start_of pos l
start_of-le pos [] = omega arith
start_of-le pos (x ∷ l) = omega (arith, start_of-le (behind pos x) l)

chain_start :
    (m : ℕ → Block) (a pos e : ℕ) (x : Area) (before after : List Area)
    → IsChain m a pos e (before ++ x ∷ after)
    → a ≡ pos
chain_start m a pos e x [] after h = h.0
chain_start m a pos e x (y ∷ before) after h = h.0

pub get_block-start_of :
    (fuel : ℕ) (m : ℕ → Block) (a pos e : ℕ) (x y : Area) (before after : List Area)
    → IsChain m a pos e (before ++ x ∷ y ∷ after)
    → 0 < pos
    → length before < fuel
    → get_block fuel m a (data_start (start_of pos before)) ≡ some (start_of pos before)
unfolding get_block
get_block-start_of zero m a pos e x y before after h low enough = absurd (omega arith)
get_block-start_of (suc fuel) m a pos e x y [] after h low enough =
    let c₁ : (pos == null) ≡ false = ==_ne pos null (λ q. omega (arith, q)) in
    let c₂ : ltb (m pos).next (data_start pos) ≡ false = ground (arith, h.3.0) in rw (h.0, c₁, c₂)
get_block-start_of (suc fuel) m a pos e x y (z ∷ before) after h low enough =
    let next = chain_start m (m pos).next (behind pos z) e x before (y ∷ after) h.3 in
    let le = start_of-le (behind pos z) before in
    let c₁ : (pos == null) ≡ false = ==_ne pos null (λ q. omega (arith, q)) in
    let c₂ : ltb (m pos).next (data_start (start_of (behind pos z) before)) ≡ true =
      ground (arith, next, le) in
    let ih =
      get_block-start_of fuel m (m pos).next (behind pos z) e x y before after h.3 (omega arith)
        (omega arith) in
    rw (h.0, c₁, c₂) ih
