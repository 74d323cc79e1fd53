-- ===== src/Heap/Chain.antt =====
-- Kernel/malloc.c: a heap as a row of areas.
use mathlib.Core.Path.{subst}
use sistemas_operativos.Base.{ℕ, ◌+◌, ◌≤◌, ◌≡◌, refl, sym, ap, ◌∙◌, arith, List, [], ◌∷◌}
use sistemas_operativos.Scheduler.{null}
use sistemas_operativos.Heap.{Block, block_struct_size}

-- What a block is good for: the bytes behind its header, and whether they are free.
pub record Area : Type 0 where
  pub bytes : ℕ
  pub unused : ℕ

-- The address behind the first of the areas from `pos` on.
abbrev pub behind : ℕ → Area → ℕ
behind pos x = pos + block_struct_size + x.bytes

-- From block `a` on there are these areas without a gap from `pos` up to `e`.
abbrev pub IsChain : (ℕ → Block) → ℕ → ℕ → ℕ → List Area → Type 0
IsChain m a pos e [] = (a ≡ null) × (pos ≡ e)
IsChain m a pos e (x ∷ l) =
    (a ≡ pos)
    × ((m pos).size ≡ x.bytes)
    × ((m pos).free ≡ x.unused)
    × IsChain m (m pos).next (behind pos x) e l

pub IsChain-le : (m : ℕ → Block) (a pos e : ℕ) (l : List Area) → IsChain m a pos e l → pos ≤ e
IsChain-le m a pos e [] h = omega (arith, h.1)
IsChain-le m a pos e (x ∷ l) h = omega (arith, IsChain-le m (m pos).next (behind pos x) e l h.3)

pub IsChain-cons :
    (m : ℕ → Block) (pos e : ℕ) (b : Block) (l : List Area)
    → m pos ≡ b
    → IsChain m b.next (pos + block_struct_size + b.size) e l
    → IsChain m pos pos e (record { bytes = b.size; unused = b.free } ∷ l)
IsChain-cons m pos e b l here rest =
    let next : (m pos).next ≡ b.next = ap (λ (x : Block). x.next) here in
    (
      refl,
      ap (λ (x : Block). x.size) here,
      ap (λ (x : Block). x.free) here,
      subst (λ n. IsChain m n (pos + block_struct_size + b.size) e l) (sym next) rest,
    )

-- A block whose header stays, in front of other areas.
pub IsChain-keep :
    (m m' : ℕ → Block) (a pos e : ℕ) (x : Area) (l : List Area)
    → m' pos ≡ m pos
    → a ≡ pos
    → (m pos).size ≡ x.bytes
    → (m pos).free ≡ x.unused
    → IsChain m' (m pos).next (behind pos x) e l
    → IsChain m' a pos e (x ∷ l)
IsChain-keep m m' a pos e x l here at size unused rest = (
  at,
  ap (λ (b : Block). b.size) here ∙ size,
  ap (λ (b : Block). b.free) here ∙ unused,
  subst (λ n. IsChain m' n (behind pos x) e l) (sym (ap (λ (b : Block). b.next) here)) rest,
)

-- Blocks in front of the areas do not matter.
pub IsChain-ext :
    (m m' : ℕ → Block) (a pos e : ℕ) (l : List Area)
    → ((y : ℕ) → pos ≤ y → m' y ≡ m y)
    → IsChain m a pos e l
    → IsChain m' a pos e l
IsChain-ext m m' a pos e [] same h = h
IsChain-ext m m' a pos e (x ∷ l) same h =
    IsChain-keep m m' a pos e x l (same pos (omega arith)) h.0 h.1 h.2
      (IsChain-ext m m' (m pos).next (behind pos x) e l (λ y le. same y (omega arith)) h.3)
