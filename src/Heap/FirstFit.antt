-- ===== src/Heap/FirstFit.antt =====
-- Kernel/malloc.c, `kmalloc`: the first area that is large enough is taken.
use sistemas_operativos.Base.{
  ℕ, zero, suc, ◌+◌, ◌-◌, ◌^◌, ◌≤◌, ◌<◌, ◌≡◌, ◌≢◌, refl, ◌∙◌, arith, List, [], ◌∷◌, ◌++◌, length,
  Bool, true, false, ◌&&◌, not, if◌then◌else◌, ◌==◌, ltb, Bool-cases, inl, inr, ==_ne, some, dec_lt,
}
use sistemas_operativos.Scheduler.{null}
use sistemas_operativos.Heap.{
  Block, Heap, find_first_free_block, take_block, kmalloc, align4, data_start, block_struct_size,
}
use sistemas_operativos.Heap.Chain.{Area, IsChain, behind, IsChain-le, IsChain-keep}
use sistemas_operativos.Heap.Take.{cut, take-IsChain, take_block-before}

abbrev pub fits : ℕ → Area → Bool
fits s x = not (x.unused == 0) && ltb s x.bytes

-- The address of the first area that is large enough, or NULL.
abbrev pub first_fit : ℕ → ℕ → List Area → ℕ
first_fit s pos [] = null
first_fit s pos (x ∷ l) = if fits s x then pos else first_fit s (behind pos x) l

abbrev pub allotted : ℕ → List Area → List Area
allotted s [] = []
allotted s (x ∷ l) = if fits s x then cut s x ++ l else x ∷ allotted s l

find_first_free_block-first_fit :
    (fuel : ℕ) (m : ℕ → Block) (a pos e s : ℕ) (l : List Area)
    → length l < fuel
    → 0 < pos
    → IsChain m a pos e l
    → find_first_free_block fuel m a s ≡ some (first_fit s pos l)
unfolding find_first_free_block
find_first_free_block-first_fit zero m a pos e s l enough low h = absurd (omega arith)
find_first_free_block-first_fit (suc fuel) m a pos e s [] enough low h = rw (h.0)
find_first_free_block-first_fit (suc fuel) m a pos e s (x ∷ l) enough low h =
    let there : (pos == null) ≡ false = ==_ne pos null (λ z. omega (arith, z)) in
    let ih =
      find_first_free_block-first_fit fuel m (m pos).next (behind pos x) e s l (omega arith)
        (omega arith) h.3 in
    elim (Bool-cases (fits s x)) [
      | inl good ↦ rw (h.0, there, h.1, h.2, good)
      | inr bad ↦ rw (h.0, there, h.1, h.2, bad) ih
    ]

first_fit-bounds :
    (m : ℕ → Block) (a pos e s : ℕ) (l : List Area)
    → IsChain m a pos e l
    → 0 < pos
    → first_fit s pos l ≢ null
    → (pos ≤ first_fit s pos l)
      × (data_start (first_fit s pos l) + (m (first_fit s pos l)).size ≤ e)
first_fit-bounds m a pos e s [] h low found = absurd (found refl)
first_fit-bounds m a pos e s (x ∷ l) h low found = elim (Bool-cases (fits s x)) [
  | inl good ↦
      let le = IsChain-le m (m pos).next (behind pos x) e l h.3 in
      rw good (omega arith, omega (arith, h.1))
  | inr bad ↦
      let ih =
        first_fit-bounds m (m pos).next (behind pos x) e s l h.3 (omega arith) (rw bad at found) in
      rw bad (omega (arith, ih.0), ih.1)
]

take_first_fit-IsChain :
    (m : ℕ → Block) (a pos e s : ℕ) (l : List Area)
    → IsChain m a pos e l
    → 0 < pos
    → e < 2 ^ 32
    → s + 4 + block_struct_size < 2 ^ 32
    → first_fit s pos l ≢ null
    → IsChain (take_block (first_fit s pos l) s m) a pos e (allotted s l)
take_first_fit-IsChain m a pos e s [] h low top request found = absurd (found refl)
take_first_fit-IsChain m a pos e s (x ∷ l) h low top request found = elim (Bool-cases (fits s x)) [
  | inl good ↦
      rw (good, h.0) (take-IsChain m pos e s x l (refl, h.1, h.2, h.3) top request (ground arith))
  | inr bad ↦
      let found' : first_fit s (behind pos x) l ≢ null = rw bad at found in
      let ih =
        take_first_fit-IsChain m (m pos).next (behind pos x) e s l h.3 (omega arith) top request
          found' in
      let bounds = first_fit-bounds m (m pos).next (behind pos x) e s l h.3 (omega arith) found' in
      let here =
        take_block-before m (first_fit s (behind pos x) l) s pos (omega (arith, bounds.0))
          (omega (arith, bounds.1)) request in
      rw bad (
        IsChain-keep m (take_block (first_fit s (behind pos x) l) s m) a pos e x (allotted s l) here
          h.0 h.1 h.2 ih)
]

allotted-none : (s pos : ℕ) (l : List Area) → 0 < pos → first_fit s pos l ≡ null → allotted s l ≡ l
allotted-none s pos [] low e = refl
allotted-none s pos (x ∷ l) low e = elim (Bool-cases (fits s x)) [
  | inl good ↦ absurd (omega (arith, rw good at e))
  | inr bad ↦ rw (bad, allotted-none s (behind pos x) l (omega arith) (rw bad at e))
]

-- The address of the data of a block, or NULL without a block.
abbrev pub data_or_null : ℕ → ℕ
data_or_null b = if b == null then null else data_start b

-- In a heap whose blocks lie without a gap from its base up to `e`, below 2 ^ 32, with rounds for all
-- of them, `kmalloc` of a size other than 0 and at least 36 below 2 ^ 32 ends: with the data of the
-- first area that is free and larger than the size rounded up, or with NULL if there is none.
-- Afterwards the blocks lie without a gap
-- up to `e` again; the area is taken, cut to the size if more than 4 bytes remain behind the header
-- of another, and the other areas are as before.
pub kmalloc-first_fit :
    (fuel size e : ℕ) (l : List Area) (h : Heap)
    → 0 < h.kernel_base
    → IsChain h.blocks h.kernel_base h.kernel_base e l
    → e < 2 ^ 32
    → 0 < size
    → size + 36 ≤ 2 ^ 32
    → length l < fuel
    → (m : ℕ → Block) × (kmalloc fuel size h
        ≡ some (data_or_null (first_fit (align4 size) h.kernel_base l), record h { blocks = m }))
      × IsChain m h.kernel_base h.kernel_base e (allotted (align4 size) l)
unfolding kmalloc
kmalloc-first_fit fuel size e l h low chain top some_size small enough =
    let s : ℕ = align4 size in
    let b : ℕ = first_fit s h.kernel_base l in
    let c₁ : (h.kernel_base == null) ≡ false = ==_ne h.kernel_base null (λ q. omega (arith, q)) in
    let c₂ : (size == 0) ≡ false = ==_ne size 0 (λ q. omega (arith, q)) in
    let found =
      find_first_free_block-first_fit fuel h.blocks h.kernel_base h.kernel_base e s l enough low
        chain in
    elim (Bool-cases (b == null)) [
      | inl missing ↦
          let nothing = allotted-none s h.kernel_base l low (ground arith) in
          (h.blocks, rw (c₁, c₂, found, missing), rw nothing chain)
      | inr there ↦ (
        take_block b s h.blocks,
        rw (c₁, c₂, found, there),
        take_first_fit-IsChain h.blocks h.kernel_base h.kernel_base e s l chain low top
            (omega arith) (λ q. ground (arith, q)),
      )
    ]

-- The addresses and sizes of the areas in use.
abbrev pub taken : ℕ → List Area → List (ℕ × ℕ)
taken pos [] = []
taken pos (x ∷ l) =
    if x.unused == 0
    then (data_start pos, x.bytes) ∷ taken (behind pos x) l
    else taken (behind pos x) l

taken_append :
    (pos : ℕ) (s : ℕ) (x : Area) (l : List Area)
    → fits s x ≡ true
    → (z : ℕ) × (taken pos (cut s x ++ l) ≡ (data_start pos, z) ∷ taken pos (x ∷ l)) × (s ≤ z)
taken_append pos s x l good = elim (dec_lt (s + 4 + block_struct_size) x.bytes) [
  | yes large ↦
      let c : ltb (s + 4 + block_struct_size) x.bytes ≡ true = ground arith in
      let unused : (x.unused == 0) ≡ false = ground arith in
      let end_ : pos
            + block_struct_size
            + s
            + block_struct_size
            + (x.bytes - (s + block_struct_size))
          ≡ behind pos x =
        omega arith in
      (s, rw (c, unused, end_), omega arith)
  | no fitting ↦
      let c : ltb (s + 4 + block_struct_size) x.bytes ≡ false = ground arith in
      let unused : (x.unused == 0) ≡ false = ground arith in (x.bytes, rw (c, unused), ground arith)
]

-- One more area is in use, and the others are as before.
allotted-taken :
    (s pos : ℕ) (l : List Area)
    → first_fit s pos l ≢ null
    → (before after : List (ℕ × ℕ)) × (z : ℕ) × (taken pos l ≡ before ++ after)
      × (taken pos (allotted s l) ≡ before ++ (data_start (first_fit s pos l), z) ∷ after)
      × (s ≤ z)
allotted-taken s pos [] found = absurd (found refl)
allotted-taken s pos (x ∷ l) found = elim (Bool-cases (fits s x)) [
  | inl good ↦
      let v = taken_append pos s x l good in ([], taken pos (x ∷ l), v.0, refl, rw good (v.1), v.2)
  | inr bad ↦
      let v = allotted-taken s (behind pos x) l (rw bad at found) in
      elim (Bool-cases (x.unused == 0)) [
        | inl used ↦
            ((data_start pos, x.bytes) ∷ v.0, v.1, v.2, rw (used, v.3), rw (bad, used, v.4), v.5)
        | inr idle ↦ (v.0, v.1, v.2, rw (idle, v.3), rw (bad, idle, v.4), v.5)
      ]
]

-- When some area is free and larger than the size rounded up, `kmalloc` hands out an address at
-- which from then on an area of at least the size asked for is in use, in the row of areas that
-- lies without a gap up to `e`, and every area that was in use still is, at its place. Heap and
-- size are as for the theorem above.
pub kmalloc-taken :
    (fuel size e : ℕ) (l : List Area) (h : Heap)
    → 0 < h.kernel_base
    → IsChain h.blocks h.kernel_base h.kernel_base e l
    → e < 2 ^ 32
    → 0 < size
    → size + 36 ≤ 2 ^ 32
    → length l < fuel
    → first_fit (align4 size) h.kernel_base l ≢ null
    → (p z : ℕ) × (m : ℕ → Block) × (l' : List Area) × (before after : List (ℕ × ℕ)) × (kmalloc fuel
          size h
        ≡ some (p, record h { blocks = m }))
      × IsChain m h.kernel_base h.kernel_base e l'
      × (taken h.kernel_base l ≡ before ++ after)
      × (taken h.kernel_base l' ≡ before ++ (p, z) ∷ after)
      × (size ≤ z)
kmalloc-taken fuel size e l h low chain top some_size small enough found =
    let s : ℕ = align4 size in
    let b : ℕ = first_fit s h.kernel_base l in
    let v = kmalloc-first_fit fuel size e l h low chain top some_size small enough in
    let w = allotted-taken s h.kernel_base l found in
    let there : (b == null) ≡ false = ==_ne b null found in
    (
      data_start b,
      w.2,
      v.0,
      allotted s l,
      w.0,
      w.1,
      v.1 ∙ rw there,
      v.2,
      w.3,
      w.4,
      omega (arith, w.5),
    )
