-- ===== src/Heap/Take.antt =====
-- Kernel/malloc.c, `kmalloc`: what taking a block does to the headers.
use mathlib.Core.Path.{subst}
use sistemas_operativos.Base.{
  ℕ, ◌+◌, ◌-◌, ◌%◌, ◌^◌, ◌≤◌, ◌<◌, ◌≡◌, ◌∙◌, arith, List, [], ◌∷◌, ◌++◌, true, false, if◌then◌else◌,
  ◌==◌, ltb, Bool-cases, inl, inr, update, update_self, update_ne, ==_ne, ==_self, dec_lt,
}
use sistemas_operativos.Heap.{Block, split_block, take_block, data_start, block_struct_size}
use sistemas_operativos.Heap.Chain.{Area, IsChain, behind, IsChain-le, IsChain-cons, IsChain-ext}

-- An area that is taken; what it has too many is a free area if more than 4 bytes remain.
abbrev pub cut : ℕ → Area → List Area
cut s x =
    if ltb (s + 4 + block_struct_size) x.bytes
    then record { bytes = s; unused = 0 }
      ∷ record { bytes = x.bytes - (s + block_struct_size); unused = 1 }
      ∷ []
    else record { bytes = x.bytes; unused = 0 } ∷ []

-- The headers after a block has been split.
abbrev split_headers : (ℕ → Block) → ℕ → ℕ → ℕ → Block
split_headers m pos s y =
    if pos == y
    then record { size = s; next = pos + block_struct_size + s; prev = (m pos).prev; free = 0 }
    else if pos + block_struct_size + s == y
    then record {
      size = (m pos).size - (s + block_struct_size);
      next = (m pos).next;
      prev = pos;
      free = 1;
    }
    else m y

take_block-large :
    (m : ℕ → Block) (pos s y : ℕ)
    → s + 4 + block_struct_size < (m pos).size
    → pos + block_struct_size + (m pos).size < 2 ^ 32
    → take_block pos s m y ≡ split_headers m pos s y
unfolding take_block split_block
take_block-large m pos s y large small =
    let c₁ : ltb ((s + 4 + block_struct_size) % 2 ^ 32) (m pos).size ≡ true = ground arith in
    let c₂ : ltb (m pos).size s ≡ false = ground arith in
    let e₁ : (data_start pos + s) % 2 ^ 64 ≡ pos + block_struct_size + s = omega arith in
    let e₂ : ((m pos).size + 2 ^ 32 - (s + block_struct_size) % 2 ^ 32) % 2 ^ 32
        ≡ (m pos).size - (s + block_struct_size) =
      omega arith in
    rw (c₁, c₂, e₁, e₂, ==_self pos)
      (elim (Bool-cases (pos == y)) [ inl here ↦ rw here | inr other ↦ rw other ])

take_block-small :
    (m : ℕ → Block) (pos s y : ℕ)
    → (m pos).size ≤ s + 4 + block_struct_size
    → s + 4 + block_struct_size < 2 ^ 32
    → take_block pos s m y ≡ update m pos (record (m pos) { free = 0 }) y
unfolding take_block
take_block-small m pos s y fitting small =
    let c : ltb ((s + 4 + block_struct_size) % 2 ^ 32) (m pos).size ≡ false = ground arith in rw c

pub take_block-before :
    (m : ℕ → Block) (b s y : ℕ)
    → y < b
    → b + block_struct_size + (m b).size < 2 ^ 32
    → s + 4 + block_struct_size < 2 ^ 32
    → take_block b s m y ≡ m y
take_block-before m b s y lt small request = elim (dec_lt (s + 4 + block_struct_size) (m b).size) [
  | yes large ↦
      let c₁ : (b == y) ≡ false = ==_ne b y (λ q. omega (arith, q)) in
      let c₂ : (b + block_struct_size + s == y) ≡ false = ground arith in
      take_block-large m b s y large small ∙ rw (c₁, c₂)
  | no fitting ↦
      take_block-small m b s y (omega arith) request
      ∙ update_ne m b y (record (m b) { free = 0 }) (λ q. omega (arith, q))
]

-- Taking the block at the start of the areas.
pub take-IsChain :
    (m : ℕ → Block) (pos e s : ℕ) (x : Area) (l : List Area)
    → IsChain m pos pos e (x ∷ l)
    → e < 2 ^ 32
    → s + 4 + block_struct_size < 2 ^ 32
    → s < x.bytes
    → IsChain (take_block pos s m) pos pos e (cut s x ++ l)
take-IsChain m pos e s x l h top request room =
    let le = IsChain-le m (m pos).next (behind pos x) e l h.3 in
    let small : pos + block_struct_size + (m pos).size < 2 ^ 32 = omega (arith, h.1) in
    elim (dec_lt (s + 4 + block_struct_size) x.bytes) [
      | yes large ↦
          let c : ltb (s + 4 + block_struct_size) x.bytes ≡ true = ground arith in
          let big : s + 4 + block_struct_size < (m pos).size = omega (arith, h.1, large) in
          let n : ℕ = pos + block_struct_size + s in
          let z : ℕ = x.bytes - (s + block_struct_size) in
          let b₁ : Block = record { size = s; next = n; prev = (m pos).prev; free = 0 } in
          let b₂ : Block = record { size = z; next = (m pos).next; prev = pos; free = 1 } in
          let here₁ : take_block pos s m pos ≡ b₁ =
            take_block-large m pos s pos big small ∙ rw (==_self pos) in
          let apart : (pos == n) ≡ false = ==_ne pos n (λ q. omega (arith, q)) in
          let here₂ : take_block pos s m n ≡ b₂ =
            take_block-large m pos s n big small ∙ rw (apart, ==_self n, h.1) in
          let end_ : behind pos x ≡ n + block_struct_size + z = omega arith in
          let rest =
            IsChain-ext m (take_block pos s m) (m pos).next (behind pos x) e l
              (λ y le.
                take_block-large m pos s y big small
                ∙ rw (==_ne pos y (λ q. omega (arith, q)), ==_ne n y (λ q. omega (arith, q))))
              h.3 in
          rw c (
            IsChain-cons (take_block pos s m) pos e b₁ (record { bytes = z; unused = 1 } ∷ l) here₁
              (IsChain-cons (take_block pos s m) n e b₂ l here₂
                (subst (λ p. IsChain (take_block pos s m) (m pos).next p e l) end_ rest)))
      | no fitting ↦
          let c : ltb (s + 4 + block_struct_size) x.bytes ≡ false = ground arith in
          let b : Block = record {
            size = x.bytes;
            next = (m pos).next;
            prev = (m pos).prev;
            free = 0;
          } in
          let here : take_block pos s m pos ≡ b =
            take_block-small m pos s pos (omega (arith, h.1)) request
            ∙ update_self m pos (record (m pos) { free = 0 })
            ∙ rw (h.1) in
          let rest =
            IsChain-ext m (take_block pos s m) (m pos).next (behind pos x) e l
              (λ y le.
                take_block-small m pos s y (omega (arith, h.1)) request
                ∙ update_ne m pos y (record (m pos) { free = 0 }) (λ q. omega (arith, q)))
              h.3 in
          rw c (IsChain-cons (take_block pos s m) pos e b l here rest)
    ]
