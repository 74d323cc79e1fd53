-- ===== src/Modules/Pack.antt =====
-- Toolchain/ModulePacker/main.c: what the image holds.
use sistemas_operativos.Base.{
  ℕ, zero, suc, ◌+◌, ◌-◌, ◌≤◌, ◌≡◌, refl, ap, ◌∙◌, arith, List, [], ◌∷◌, ◌++◌, append-nil,
  append_assoc, length, take, drop, take-append-drop, false, Bool-cases, inl, inr, some, ltb,
}
use sistemas_operativos.Modules.{write_loop, write_file, le32, write_size, image_loop, build_image}

take-all : (n : ℕ) (xs : List ℕ) → length xs ≤ n → take n xs ≡ xs
take-all zero [] le = refl
take-all zero (x ∷ xs) le = absurd (omega arith)
take-all (suc n) [] le = refl
take-all (suc n) (x ∷ xs) le = ap (◌∷◌ x) (take-all n xs (omega arith))

length-drop : (n : ℕ) (xs : List ℕ) → length (drop n xs) ≡ length xs - n
length-drop zero xs = omega arith
length-drop (suc n) [] = omega arith
length-drop (suc n) (x ∷ xs) = omega (arith, length-drop n xs)

write_loop_lem :
    (fuel : ℕ) (target rest : List ℕ)
    → length rest + 2 ≤ fuel
    → write_loop fuel target (record { rest = rest; eof = false }) ≡ some (target ++ rest)
unfolding write_loop
write_loop_lem zero target rest le = absurd (omega arith)
write_loop_lem (suc zero) target rest le = absurd (omega arith)
write_loop_lem (suc (suc fuel)) target rest le = elim (Bool-cases (ltb (length rest) 128)) [
  | inl last ↦ rw (last, take-all 128 rest (ground arith))
  | inr more ↦ rw more (
      write_loop_lem (suc fuel) (target ++ take 128 rest) (drop 128 rest)
        (ground (arith, length-drop 128 rest))
      ∙ rw (append_assoc target (take 128 rest) (drop 128 rest), take-append-drop 128 rest))
]

-- `write_file` ends and appends the whole file, whatever its size.
pub write_file_appends : (target file : List ℕ) → write_file target file ≡ some (target ++ file)
unfolding write_file
write_file_appends target file = write_loop_lem (length file + 2) target file (omega arith)

-- The modules behind the kernel, each behind its size.
abbrev pub packed : List (List ℕ) → List ℕ
packed [] = []
packed (file ∷ files) = (le32 (length file) ++ file) ++ packed files

image_loop-packed :
    (target : List ℕ) (files : List (List ℕ))
    → image_loop target files ≡ some (target ++ packed files)
unfolding image_loop
image_loop-packed target [] = rw append-nil
image_loop-packed target (file ∷ files) =
    rw (write_file_appends (write_size target file) file, image_loop)
      (image_loop-packed (write_size target file ++ file) files ∙ ap some (simp append_assoc))

-- The image is the kernel, the number of modules, and the modules, each behind its size.
pub build_image-packed :
    (kernel : List ℕ) (files : List (List ℕ))
    → build_image kernel files ≡ some (kernel ++ le32 (length files) ++ packed files)
unfolding build_image
build_image-packed kernel files =
    rw (write_file_appends [] kernel, build_image)
      (image_loop-packed (kernel ++ le32 (length files)) files)
