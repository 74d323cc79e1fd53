-- ===== src/Modules.antt =====
-- Toolchain/ModulePacker/main.c, which builds the image, and Kernel/moduleLoader.c, which spreads
-- it over the memory. A file is the list of its bytes; texts shown to the user are left out.
pub mod Pack
pub mod Load
pub mod Tests
use sistemas_operativos.Base.{
  ℕ, zero, suc, ◌+◌, ◌-◌, ◌*◌, ◌/◌, ◌%◌, ◌^◌, List, [], ◌∷◌, ◌++◌, length, take, drop, Bool, true,
  false, not, if◌then◌else◌, ltb, Option, none, some,
}
use sistemas_operativos.Memory.{Bytes, memcpy}

abbrev pub buffer_size : ℕ
buffer_size = 128

-- What is left to read of a file, and whether a read has met its end.
pub record Stream : Type 0 where
  pub rest : List ℕ
  pub eof : Bool

abbrev pub fopen : List ℕ → Stream
fopen file = record { rest = file; eof = false }

-- A read that finds fewer bytes than it asks for has met the end.
abbrev pub fread : Stream → List ℕ × Stream
fread s = (
  take buffer_size s.rest,
  record { rest = drop buffer_size s.rest; eof = ltb (length s.rest) buffer_size },
)

-- The loop of `write_file`, on fuel, with what the target holds; `none` if the fuel runs out.
pub write_loop : ℕ → List ℕ → Stream → Option (List ℕ)
write_loop zero target s = none
write_loop (suc fuel) target s =
    let (read, s') = fread s in
    let rest = write_loop fuel (target ++ read) s' in if s.eof then some target else rest

-- Every round but the last two takes 128 bytes, so one round a byte and two more are enough.
unfoldable pub write_file : List ℕ → List ℕ → Option (List ℕ)
unfolding write_loop
write_file target source = write_loop (length source + 2) target (fopen source)

-- The four bytes of a `uint32_t` in memory.
abbrev pub le32 : ℕ → List ℕ
le32 n = n % 2 ^ 8 ∷ (n / 2 ^ 8 % 2 ^ 8) ∷ (n / 2 ^ 16 % 2 ^ 8) ∷ (n / 2 ^ 24 % 2 ^ 8) ∷ []

-- The size of the file comes from `stat`.
abbrev pub write_size : List ℕ → List ℕ → List ℕ
write_size target file = target ++ le32 (length file)

-- The loop of `buildImage` over the files behind the kernel.
pub image_loop : List ℕ → List (List ℕ) → Option (List ℕ)
image_loop target [] = some target
image_loop target (file ∷ files) = elim (write_file (write_size target file) file) [
  | none ↦ none
  | some target' ↦ image_loop target' files
]

-- `buildImage` once the target is open.
unfoldable pub build_image : List ℕ → List (List ℕ) → Option (List ℕ)
unfolding image_loop
build_image kernel files = elim (write_file [] kernel) [
  | none ↦ none
  | some target ↦ image_loop (target ++ le32 (length files)) files
]

-- The loop of `checkFiles`; `readable` says what `access` answers for a name.
unfoldable pub check_files : (ℕ → Bool) → List ℕ → Bool
check_files readable [] = true
check_files readable (name ∷ names) = if readable name then check_files readable names else false

abbrev pub read_uint32 : ℕ → Bytes → ℕ
read_uint32 a m = m a + m (a + 1) * 2 ^ 8 + m (a + 2) * 2 ^ 16 + m (a + 3) * 2 ^ 24

-- The address behind the module, and the memory.
abbrev pub load_module : ℕ → ℕ → Bytes → ℕ × Bytes
load_module module_ target m =
    let size = read_uint32 module_ m in (module_ + 4 + size, memcpy target (module_ + 4) size m)

-- The rounds left, and the round.
pub load_loop : ℕ → ℕ → ℕ → (ℕ → ℕ) → Bytes → Bytes
load_loop zero i current targets m = m
load_loop (suc n) i current targets m =
    let (current', m') = load_module current (targets i) m in
    load_loop n (i + 1) current' targets m'

unfoldable pub load_modules : ℕ → (ℕ → ℕ) → Bytes → Bytes
unfolding load_loop
load_modules payload_start targets m =
    load_loop (read_uint32 payload_start m) 0 (payload_start + 4) targets m
