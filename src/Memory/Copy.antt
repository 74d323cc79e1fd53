-- ===== src/Memory/Copy.antt =====
-- Kernel/lib.c, `memcpy`: what is copied where.
use mathlib.Core.Path.{fun_ext, subst}
use sistemas_operativos.Base.{
  ℕ, zero, suc, ◌+◌, ◌*◌, ◌/◌, ◌≤◌, ◌<◌, ◌≡◌, ◌⊎◌, inl, inr, refl, sym, ap, ◌∙◌, arith, List, [],
  ◌∷◌, length, update, update_self, update_ne, Bool-cases,
}
use sistemas_operativos.Memory.{Bytes, copy_bytes, copy_word, copy_words, memcpy, is_aligned}

-- The `n` bytes at `d` and the `k` bytes at `s` have none in common.
abbrev pub Apart : ℕ → ℕ → ℕ → ℕ → Type 0
Apart d n s k = (d + n ≤ s) ⊎ (s + k ≤ d)

-- The bytes from an address on.
abbrev pub Holds : Bytes → ℕ → List ℕ → Type 0
Holds m a [] = Unit
Holds m a (x ∷ xs) = (m a ≡ x) × Holds m (a + 1) xs

pub copy_bytes_outside :
    (n d s j : ℕ) (m : Bytes) → (j < d) ⊎ (d + n ≤ j) → copy_bytes n d s m j ≡ m j
unfolding copy_bytes
copy_bytes_outside zero d s j m h = refl
copy_bytes_outside (suc n) d s j m h =
    copy_bytes_outside n (d + 1) (s + 1) j (update m d (m s)) (omega arith)
    ∙ update_ne m d j (m s) (omega arith)

copy_bytes_inside :
    (n d s i : ℕ) (m : Bytes) → Apart d n s n → i < n → copy_bytes n d s m (d + i) ≡ m (s + i)
unfolding copy_bytes
copy_bytes_inside zero d s i m h lt = absurd (omega arith)
copy_bytes_inside (suc n) d s zero m h lt =
    let e : d + 0 ≡ d = omega arith in
    let f : s + 0 ≡ s = omega arith in
    rw (e, f)
      (copy_bytes_outside n (d + 1) (s + 1) d (update m d (m s)) (inl (omega arith))
        ∙ update_self m d (m s))
copy_bytes_inside (suc n) d s (suc i) m h lt =
    let e : d + suc i ≡ d + 1 + i = omega arith in
    let f : s + suc i ≡ s + 1 + i = omega arith in
    rw (e, f)
      (copy_bytes_inside n (d + 1) (s + 1) i (update m d (m s)) (omega arith) (omega arith)
        ∙ update_ne m d (s + 1 + i) (m s) (omega arith))

-- One word is four bytes, if the places do not overlap.
copy_word-copy_bytes : (d s : ℕ) (m : Bytes) → Apart d 4 s 4 → copy_word d s m ≡ copy_bytes 4 d s m
unfolding copy_bytes
copy_word-copy_bytes d s m h = fun_ext λ j. ground arith

copy_bytes_none : (d s : ℕ) (m : Bytes) → copy_bytes 0 d s m ≡ m
unfolding copy_bytes
copy_bytes_none d s m = refl

copy_bytes_four :
    (n d s : ℕ) (m : Bytes)
    → copy_bytes (4 + n) d s m ≡ copy_bytes n (d + 4) (s + 4) (copy_bytes 4 d s m)
unfolding copy_bytes
copy_bytes_four n d s m =
    let e : 4 + n ≡ suc (suc (suc (suc n))) = omega arith in
    let f : d + 1 + 1 + 1 + 1 ≡ d + 4 = omega arith in
    let g : s + 1 + 1 + 1 + 1 ≡ s + 4 = omega arith in rw (e, f, g)

copy_words-copy_bytes :
    (n d s : ℕ) (m : Bytes)
    → Apart d (n * 4) s (n * 4)
    → copy_words n d s m ≡ copy_bytes (n * 4) d s m
unfolding copy_words
copy_words-copy_bytes zero d s m h =
    let e : 0 * 4 ≡ 0 = omega arith in rw e (sym (copy_bytes_none d s m))
copy_words-copy_bytes (suc n) d s m h =
    let e : suc n * 4 ≡ 4 + n * 4 = omega arith in
    rw (copy_word-copy_bytes d s m (omega arith), e)
      (copy_words-copy_bytes n (d + 4) (s + 4) (copy_bytes 4 d s m) (omega arith)
        ∙ sym (copy_bytes_four (n * 4) d s m))

-- Where the two areas do not overlap, `memcpy` copies as the loop over bytes does, whether it goes
-- by words or not.
memcpy-copy_bytes : (d s n : ℕ) (m : Bytes) → Apart d n s n → memcpy d s n m ≡ copy_bytes n d s m
unfolding memcpy
memcpy-copy_bytes d s n m h = elim (Bool-cases (is_aligned d s n)) [
  | inl words ↦
      let e : n / 4 * 4 ≡ n = ground arith in
      rw words (
        copy_words-copy_bytes (n / 4) d s m (omega (arith, e))
        ∙ ap (λ (k : ℕ). copy_bytes k d s m) e)
  | inr bytes ↦ rw bytes
]

Holds-copy_bytes :
    (d s n i : ℕ) (m : Bytes) (xs : List ℕ)
    → Apart d n s n
    → i + length xs ≤ n
    → Holds m (s + i) xs
    → Holds (copy_bytes n d s m) (d + i) xs
Holds-copy_bytes d s n i m [] h le held = tt
Holds-copy_bytes d s n i m (x ∷ xs) h le held =
    let e : d + i + 1 ≡ d + (i + 1) = omega arith in
    let f : s + i + 1 ≡ s + (i + 1) = omega arith in
    (
      copy_bytes_inside n d s i m h (omega arith) ∙ held.0,
      rw e (Holds-copy_bytes d s n (i + 1) m xs h (omega arith) (rw (← f) held.1)),
    )

Holds-outside :
    (n d s a : ℕ) (m : Bytes) (xs : List ℕ)
    → Apart d n a (length xs)
    → Holds m a xs
    → Holds (copy_bytes n d s m) a xs
Holds-outside n d s a m [] h held = tt
Holds-outside n d s a m (x ∷ xs) h held = (
  copy_bytes_outside n d s a m (omega arith) ∙ held.0,
  Holds-outside n d s (a + 1) m xs (omega arith) held.1,
)

-- `memcpy` between areas that do not overlap leaves the source's bytes at the destination, and
-- every area apart from the destination as it was.
pub memcpy-Holds :
    (d s : ℕ) (m : Bytes) (xs : List ℕ)
    → Apart d (length xs) s (length xs)
    → Holds m s xs
    → Holds (memcpy d s (length xs) m) d xs
      × ((a : ℕ) (ys : List ℕ)
          → Apart d (length xs) a (length ys)
          → Holds m a ys
          → Holds (memcpy d s (length xs) m) a ys)
memcpy-Holds d s m xs h held = rw (memcpy-copy_bytes d s (length xs) m h) (
  let e : d + 0 ≡ d = omega arith in
      let f : s + 0 ≡ s = omega arith in
      subst (λ (a : ℕ). Holds (copy_bytes (length xs) d s m) a xs) e
        (Holds-copy_bytes d s (length xs) 0 m xs h (omega arith)
          (subst (λ (a : ℕ). Holds m a xs) (sym f) held)),
  λ a ys. Holds-outside (length xs) d s a m ys,
)
