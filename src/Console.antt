-- ===== src/Console.antt =====
-- Kernel/naiveConsole.c: numbers as text in a static buffer, and what `ncPrint` hands to `putchar`.
-- `ncPrintChar`, `ncNewline` and `ncClear`, which nothing else of the kernel moves, keep their own
-- pointer into the memory of the screen.
pub mod Digits
pub mod Tests
use sistemas_operativos.Base.{
  ℕ, zero, suc, ◌+◌, ◌-◌, ◌*◌, ◌/◌, ◌%◌, List, [], ◌∷◌, Bool, if◌then◌else◌, ◌==◌, ltb, update,
  Option, none, some,
}

abbrev pub width : ℕ
width = 80

abbrev pub height : ℕ
height = 25

-- The size of the static buffer.
abbrev pub buffer_size : ℕ
buffer_size = 64

abbrev pub digit : ℕ → ℕ
digit remainder = if ltb remainder 10 then remainder + b'0' else remainder + b'A' - 10

-- The first loop of `uintToBase`, on fuel: the value, how many digits stand in the buffer, and the
-- buffer; `none` if the fuel runs out.
pub digit_loop : ℕ → ℕ → ℕ → ℕ → (ℕ → ℕ) → Option (ℕ × (ℕ → ℕ))
digit_loop zero base value digits buffer = none
digit_loop (suc fuel) base value digits buffer =
    let buffer' = update buffer digits (digit (value % base)) in
    let rest = digit_loop fuel base (value / base) (digits + 1) buffer' in
    if value / base == 0 then some (digits + 1, buffer') else rest

-- The loop that reverses the text between two places, on fuel; every round brings them nearer by 2.
pub swap_loop : ℕ → ℕ → ℕ → (ℕ → ℕ) → ℕ → ℕ
swap_loop zero p₁ p₂ buffer = buffer
swap_loop (suc fuel) p₁ p₂ buffer =
    let rest =
      swap_loop fuel (p₁ + 1) (p₂ - 1) (update (update buffer p₁ (buffer p₂)) p₂ (buffer p₁)) in
    if ltb p₁ p₂ then rest else buffer

-- A 64-bit value has at most 64 digits.
unfoldable pub uint_to_base : ℕ → (ℕ → ℕ) → ℕ → Option (ℕ × (ℕ → ℕ))
unfolding digit_loop swap_loop
uint_to_base value buffer base = elim (digit_loop 64 base value 0 buffer) [
  | none ↦ none
  | some (digits, buffer') ↦
      some (digits, swap_loop digits 0 (digits - 1) (update buffer' digits 0))
]

-- `ncPrint`: the characters up to the 0, on as many rounds as asked for.
text_loop : ℕ → ℕ → (ℕ → ℕ) → List ℕ
text_loop zero i string = []
text_loop (suc n) i string =
    let rest = text_loop n (i + 1) string in if string i == 0 then [] else string i ∷ rest

-- What `ncPrintBase` prints.
unfoldable pub nc_print_base : ℕ → (ℕ → ℕ) → ℕ → Option (List ℕ)
unfolding text_loop
nc_print_base value buffer base = elim (uint_to_base value buffer base) [
  | none ↦ none
  | some (digits, buffer') ↦ some (text_loop (digits + 1) 0 buffer')
]

abbrev pub nc_print_dec : ℕ → (ℕ → ℕ) → Option (List ℕ)
nc_print_dec value buffer = nc_print_base value buffer 10

abbrev pub nc_print_hex : ℕ → (ℕ → ℕ) → Option (List ℕ)
nc_print_hex value buffer = nc_print_base value buffer 16

abbrev pub nc_print_bin : ℕ → (ℕ → ℕ) → Option (List ℕ)
nc_print_bin value buffer = nc_print_base value buffer 2
