-- ===== src/Text/Order.antt =====
-- Kernel/stdio.c: `strcmp` and `strcmpN` decide equality.
use sistemas_operativos.Base.{ℕ, zero, suc, ◌<◌, ◌≡◌, ◌↔◌, refl, List, [], ◌∷◌, arith, take, neg}
use sistemas_operativos.Text.{strcmp, strcmp_n}

-- Every element is a byte, and none is the terminating 0.
abbrev pub IsText : List ℕ → Type 0
IsText [] = Unit
IsText (c ∷ cs) = (0 < c) × (c < 256) × IsText cs

-- `strcmp` returns 0 exactly for equal texts.
strcmp_eq : (cs ds : List ℕ) → IsText cs → IsText ds → (strcmp cs ds ≡ 0) ↔ (cs ≡ ds)
unfolding strcmp
strcmp_eq [] [] h k = (λ _. refl, λ _. refl)
strcmp_eq [] (d ∷ ds) h k = (λ e. absurd (omega arith), λ e. cc)
strcmp_eq (c ∷ cs) [] h k = (λ e. absurd (omega arith), λ e. cc)
strcmp_eq (c ∷ cs) (d ∷ ds) h k = let ih = strcmp_eq cs ds h.2 k.2 in (ground arith, ground arith)

-- The two orders of the arguments give opposite answers.
pub strcmp_flip :
    (cs ds : List ℕ) → IsText cs → IsText ds → ((strcmp cs ds ≡ 1) ↔ (strcmp ds cs ≡ neg 1))
unfolding strcmp
strcmp_flip [] [] h k = (λ e. absurd (omega arith), λ e. absurd (omega arith))
strcmp_flip [] (d ∷ ds) h k = (λ e. absurd (omega arith), λ e. absurd (omega arith))
strcmp_flip (c ∷ cs) [] h k = (λ _. refl, λ _. refl)
strcmp_flip (c ∷ cs) (d ∷ ds) h k =
    let ih = strcmp_flip cs ds h.2 k.2 in (ground arith, ground arith)

-- `strcmpN` compares the texts cut to `n` bytes.
strcmp_n-take : (n : ℕ) (cs ds : List ℕ) → strcmp_n cs ds n ≡ strcmp (take n cs) (take n ds)
unfolding strcmp strcmp_n
strcmp_n-take zero [] ds = refl
strcmp_n-take zero (c ∷ cs) ds = refl
strcmp_n-take (suc n) [] [] = refl
strcmp_n-take (suc n) [] (d ∷ ds) = refl
strcmp_n-take (suc n) (c ∷ cs) [] = refl
strcmp_n-take (suc n) (c ∷ cs) (d ∷ ds) = ground (arith, strcmp_n-take n cs ds)
