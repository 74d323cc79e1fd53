-- ===== src/Memory.antt =====
-- Kernel/lib.c over a byte memory, a function from an address to the byte there.
pub mod Copy
pub mod Tests
use sistemas_operativos.Base.{
  ℕ, zero, suc, ◌+◌, ◌*◌, ◌/◌, ◌%◌, Bool, ◌&&◌, if◌then◌else◌, ◌==◌, update, List, [], ◌∷◌, ◌^◌,
}

abbrev pub Bytes : Type 0
Bytes = ℕ → ℕ

-- The loop counts `length` down to 0.
unfoldable pub set_loop : ℕ → ℕ → ℕ → Bytes → Bytes
set_loop zero destination chr m = m
set_loop (suc length) destination chr m =
    set_loop length destination chr (update m (destination + length) chr)

-- `c` is the pattern of an `int32_t`, cut to a byte.
unfoldable pub memset : ℕ → ℕ → ℕ → Bytes → Bytes
unfolding set_loop
memset destination c length m = set_loop length destination (c % 2 ^ 8) m

-- The loop over bytes, the bytes left first; both addresses move on.
unfoldable pub copy_bytes : ℕ → ℕ → ℕ → Bytes → Bytes
copy_bytes zero d s m = m
copy_bytes (suc n) d s m = copy_bytes n (d + 1) (s + 1) (update m d (m s))

-- A word is read whole before it is written.
abbrev pub copy_word : ℕ → ℕ → Bytes → Bytes
copy_word d s m =
    update (update (update (update m d (m s)) (d + 1) (m (s + 1))) (d + 2) (m (s + 2))) (d + 3)
      (m (s + 3))

unfoldable pub copy_words : ℕ → ℕ → ℕ → Bytes → Bytes
copy_words zero d s m = m
copy_words (suc n) d s m = copy_words n (d + 4) (s + 4) (copy_word d s m)

abbrev pub is_aligned : ℕ → ℕ → ℕ → Bool
is_aligned destination source length =
    (destination % 4 == 0) && (source % 4 == 0) && (length % 4 == 0)

unfoldable pub memcpy : ℕ → ℕ → ℕ → Bytes → Bytes
unfolding copy_words copy_bytes
memcpy destination source length m =
    if is_aligned destination source length
    then copy_words (length / 4) destination source m
    else copy_bytes length destination source m

-- Two digits and the 0 behind them; `n` is not negative.
unfoldable pub int_to_string : ℕ → ℕ → Bytes → Bytes
int_to_string n buffer m =
    update (update (update m buffer (n / 10 % 10 + b'0')) (buffer + 1) (n % 10 + b'0')) (buffer + 2)
      0
