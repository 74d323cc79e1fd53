-- ===== src/Text.antt =====
-- Kernel/stdio.c: comparing texts. A text is the list of the bytes before the terminating 0.
use sistemas_operativos.Base.{
  ℕ, zero, suc, ◌+◌, ◌%◌, ◌<◌, ◌≡◌, ◌≢◌, ◌↔◌, refl, ap, List, [], ◌∷◌, Bool, true, false,
  if◌then◌else◌, ◌==◌, ltb, neg, arith, Bool-cases, inl, inr,
}
pub mod Order
pub mod Tests

-- The order of `char`, which is signed, on bytes.
abbrev pub signed_rank : ℕ → ℕ
signed_rank c = (c + 128) % 256

unfoldable pub strcmp : List ℕ → List ℕ → ℕ
strcmp [] [] = 0
strcmp [] (d ∷ ds) = neg 1
strcmp (c ∷ cs) [] = 1
strcmp (c ∷ cs) (d ∷ ds) =
    let rest = strcmp cs ds in
    if ltb (signed_rank d) (signed_rank c)
    then 1
    else if ltb (signed_rank c) (signed_rank d)
    then neg 1
    else rest

-- `strcmpN` compares at most `number` bytes; the tests for the end of a text come first.
unfoldable pub strcmp_n : List ℕ → List ℕ → ℕ → ℕ
strcmp_n [] ds zero = 0
strcmp_n [] [] (suc n) = 0
strcmp_n [] (d ∷ ds) (suc n) = neg 1
strcmp_n (c ∷ cs) ds zero = 0
strcmp_n (c ∷ cs) [] (suc n) = 1
strcmp_n (c ∷ cs) (d ∷ ds) (suc n) =
    let rest = strcmp_n cs ds n in
    if ltb (signed_rank d) (signed_rank c)
    then 1
    else if ltb (signed_rank c) (signed_rank d)
    then neg 1
    else rest
