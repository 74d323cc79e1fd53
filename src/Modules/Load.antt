-- ===== src/Modules/Load.antt =====
-- Kernel/moduleLoader.c: the modules of an image arrive where they belong.
use mathlib.Core.Path.{subst}
use sistemas_operativos.Base.{
  ℕ, suc, ◌+◌, ◌/◌, ◌%◌, ◌^◌, ◌≤◌, ◌<◌, ◌≡◌, sym, ap, ◌∙◌, arith, List, [], ◌∷◌, ◌++◌, some, length,
  length-append,
}
use sistemas_operativos.Memory.{Bytes, memcpy}
use sistemas_operativos.Memory.Copy.{Apart, Holds, memcpy-Holds}
use sistemas_operativos.Modules.{build_image, le32, read_uint32, load_loop, load_modules}
use sistemas_operativos.Modules.Pack.{packed, build_image-packed}

Holds-append :
    (m : Bytes) (a : ℕ) (xs ys : List ℕ)
    → Holds m a (xs ++ ys)
    → Holds m a xs × Holds m (a + length xs) ys
Holds-append m a [] ys h =
    let e : a + 0 ≡ a = omega arith in (tt, subst (λ (b : ℕ). Holds m b ys) (sym e) h)
Holds-append m a (x ∷ xs) ys h =
    let (left, right) = Holds-append m (a + 1) xs ys h.1 in
    let e : a + 1 + length xs ≡ a + suc (length xs) = omega arith in
    ((h.0, left), subst (λ (b : ℕ). Holds m b ys) e right)

read_uint32-le32 : (m : Bytes) (a n : ℕ) → n < 2 ^ 32 → Holds m a (le32 n) → read_uint32 a m ≡ n
read_uint32-le32 m a n small h =
    let e : a + 1 + 1 ≡ a + 2 = omega arith in
    let f : a + 1 + 1 + 1 ≡ a + 3 = omega arith in
    let first : m a ≡ n % 2 ^ 8 = h.0 in
    let second : m (a + 1) ≡ n / 2 ^ 8 % 2 ^ 8 = h.1.0 in
    let third : m (a + 2) ≡ n / 2 ^ 16 % 2 ^ 8 = ap m (sym e) ∙ h.1.1.0 in
    let fourth : m (a + 3) ≡ n / 2 ^ 24 % 2 ^ 8 = ap m (sym f) ∙ h.1.1.1.0 in omega arith

-- The areas that the files go to, from target `i` on, are apart from the `k` bytes at `a`.
abbrev pub AllApart : (ℕ → ℕ) → ℕ → List (List ℕ) → ℕ → ℕ → Type 0
AllApart targets i [] a k = Unit
AllApart targets i (file ∷ files) a k =
    Apart (targets i) (length file) a k × AllApart targets (i + 1) files a k

-- No two of those areas overlap.
abbrev pub Separate : (ℕ → ℕ) → ℕ → List (List ℕ) → Type 0
Separate targets i [] = Unit
Separate targets i (file ∷ files) =
    AllApart targets (i + 1) files (targets i) (length file) × Separate targets (i + 1) files

-- Each file lies at its target.
abbrev pub Loaded : (ℕ → ℕ) → ℕ → List (List ℕ) → Bytes → Type 0
Loaded targets i [] m = Unit
Loaded targets i (file ∷ files) m = Holds m (targets i) file × Loaded targets (i + 1) files m

-- Sizes that fit in a `uint32_t`.
abbrev pub Small : List (List ℕ) → Type 0
Small [] = Unit
Small (file ∷ files) = (length file < 2 ^ 32) × Small files

AllApart-within :
    (targets : ℕ → ℕ) (i : ℕ) (files : List (List ℕ)) (a k a' k' : ℕ)
    → a ≤ a'
    → a' + k' ≤ a + k
    → AllApart targets i files a k
    → AllApart targets i files a' k'
AllApart-within targets i [] a k a' k' lo hi h = tt
AllApart-within targets i (file ∷ files) a k a' k' lo hi h =
    let head : Apart (targets i) (length file) a k = h.0 in
    (omega arith, AllApart-within targets (i + 1) files a k a' k' lo hi h.1)

-- What loading leaves: the files at their targets, and every area apart from these.
record Arrived (targets : ℕ → ℕ) (i : ℕ) (files : List (List ℕ)) (m m' : Bytes) : Type 0 where
  loaded : Loaded targets i files m'
  frame :
      (a : ℕ) (ys : List ℕ) → AllApart targets i files a (length ys) → Holds m a ys → Holds m' a ys

load_loop-Arrived :
    (files : List (List ℕ)) (i current : ℕ) (targets : ℕ → ℕ) (m : Bytes)
    → Small files
    → Separate targets i files
    → AllApart targets i files current (length (packed files))
    → Holds m current (packed files)
    → Arrived targets i files m (load_loop (length files) i current targets m)
unfolding load_loop
load_loop-Arrived [] i current targets m small apart away held = record {
  loaded = tt;
  frame = λ a ys _ h. h;
}
load_loop-Arrived (file ∷ files) i current targets m small apart away held =
    rw (size, load_loop)
      (let moved =
          memcpy-Holds (targets i) (current + 4) m file (omega (arith, total, away.0))
            (subst (λ (a : ℕ). Holds m a file) start parts.1) in
        let rest =
          load_loop-Arrived files (i + 1) (current + 4 + length file) targets
            (memcpy (targets i) (current + 4) (length file) m) small.1 apart.1
            (AllApart-within targets (i + 1) files current (length (packed (file ∷ files)))
              (current + 4 + length file) (length (packed files)) (omega arith)
              (omega (arith, total)) away.1)
            (moved.1 (current + 4 + length file) (packed files) (omega (arith, total))
              (subst (λ (a : ℕ). Holds m a (packed files)) next ends.1)) in
        record {
          loaded = (rest.frame (targets i) file apart.0 moved.0, rest.loaded);
          frame = λ a ys h held'. rest.frame a ys h.1 (moved.1 a ys h.0 held');
        })
  where
    ends :
        Holds m current (le32 (length file) ++ file)
        × Holds m (current + length (le32 (length file) ++ file)) (packed files)
    ends = Holds-append m current (le32 (length file) ++ file) (packed files) held

    parts :
        Holds m current (le32 (length file)) × Holds m (current + length (le32 (length file))) file
    parts = Holds-append m current (le32 (length file)) file ends.0

    size : read_uint32 current m ≡ length file
    size = read_uint32-le32 m current (length file) small.0 parts.0

    start : current + length (le32 (length file)) ≡ current + 4
    start = omega arith

    next : current + length (le32 (length file) ++ file) ≡ current + 4 + length file
    next = omega arith

    total : length (packed (file ∷ files)) ≡ 4 + length file + length (packed files)
    total = omega (arith, length-append file (packed files))

-- The packer builds an image of the kernel and any files, and the kernel loads what was packed: for
-- files of less than 2 ^ 32 bytes, of which there are less than 2 ^ 31, the image of which lies in
-- memory from `start` on, and targets that overlap neither the modules in the image nor one
-- another, every file lies at its target in the end.
pub load_modules-build_image :
    (kernel : List ℕ) (files : List (List ℕ)) (start : ℕ) (targets : ℕ → ℕ) (m : Bytes)
    → length files < 2 ^ 31
    → Small files
    → Separate targets 0 files
    → AllApart targets 0 files (start + length kernel + 4) (length (packed files))
    → Holds m start (kernel ++ le32 (length files) ++ packed files)
    → (build_image kernel files ≡ some (kernel ++ le32 (length files) ++ packed files))
      × Loaded targets 0 files (load_modules (start + length kernel) targets m)
unfolding load_modules
load_modules-build_image kernel files start targets m few small apart away held = (
  build_image-packed kernel files,
  let (image, behind) = Holds-append m start (kernel ++ le32 (length files)) (packed files) held in
      let (_, count) = Holds-append m start kernel (le32 (length files)) image in
      let e : read_uint32 (start + length kernel) m ≡ length files =
        read_uint32-le32 m (start + length kernel) (length files) (omega arith) count in
      let f : start + length (kernel ++ le32 (length files)) ≡ start + length kernel + 4 =
        omega (arith, length-append kernel (le32 (length files))) in
      rw e
        (load_loop-Arrived files 0 (start + length kernel + 4) targets m small apart away
          (subst (λ (a : ℕ). Holds m a (packed files)) f behind)).loaded,
)
