-- ===== src/Text/Tests.antt =====
-- Comparisons of texts, and the theorems at concrete texts.
use sistemas_operativos.Base.{ℕ, ◌≡◌, ◌↔◌, refl, arith, List, [], ◌∷◌, neg}
use sistemas_operativos.Text.{strcmp, strcmp_n}
use sistemas_operativos.Text.Order.{strcmp_flip}

abbrev mutex_name : List ℕ
mutex_name = b'm' ∷ b'u' ∷ b't' ∷ []

abbrev pipe_name : List ℕ
pipe_name = b'm' ∷ b'u' ∷ b'x' ∷ []

compared : (strcmp mutex_name pipe_name ≡ neg 1) × (strcmp_n mutex_name pipe_name 2 ≡ 0)
unfolding strcmp strcmp_n
compared = (refl, refl)

strcmp_flip_example : (strcmp pipe_name mutex_name ≡ 1) ↔ (strcmp mutex_name pipe_name ≡ neg 1)
strcmp_flip_example = strcmp_flip pipe_name mutex_name (omega arith) (omega arith)
