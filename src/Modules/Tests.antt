-- ===== src/Modules/Tests.antt =====
-- An image of two small modules, and the theorems there.
use sistemas_operativos.Base.{
  ℕ, ◌+◌, ◌-◌, ◌≡◌, arith, List, [], ◌∷◌, ◌++◌, length, get_or, some, if◌then◌else◌, ◌==◌,
}
use sistemas_operativos.Memory.{Bytes}
use sistemas_operativos.Modules.{build_image, load_modules, le32}
use sistemas_operativos.Modules.Pack.{packed}
use sistemas_operativos.Modules.Load.{Loaded, load_modules-build_image}

abbrev files : List (List ℕ)
files = (1 ∷ 2 ∷ []) ∷ (3 ∷ []) ∷ []

abbrev targets : ℕ → ℕ
targets k = if k == 0 then 2000 else 3000

abbrev packed_image : List ℕ
packed_image = (9 ∷ []) ++ le32 (length files) ++ packed files

abbrev memory : Bytes
memory a = get_or packed_image (a - 1000) 0

load_modules-build_image_example :
    (build_image (9 ∷ []) files ≡ some ((9 ∷ []) ++ le32 (length files) ++ packed files))
    × Loaded targets 0 files (load_modules (1000 + 1) targets memory)
load_modules-build_image_example =
    load_modules-build_image (9 ∷ []) files 1000 targets memory (omega arith) (omega arith)
      (omega arith) (omega arith) (omega arith)
