-- ===== src/Clock.antt =====
-- Kernel/rtc.c, `getTime`, with Kernel/lib.c, `intToString`, over a memory of bytes. The bytes that
-- the clock gives are below 128, as for a clock of 24 hours: a `char` is not negative.
pub mod Tests
use sistemas_operativos.Base.{
  ℕ, zero, suc, ◌+◌, ◌*◌, ◌/◌, ◌%◌, ◌<◌, ◌≤◌, ◌≡◌, ◌≢◌, ◌⊎◌, inl, inr, refl, ap, ◌∙◌, arith, List,
  [], ◌∷◌, Bool, true, false, if◌then◌else◌, ◌==◌, update, update_ne,
}
use sistemas_operativos.Memory.{Bytes, int_to_string}

-- Two decimal digits of four bits each.
abbrev pub from_bcd : ℕ → ℕ
from_bcd b = b % 16 + b / 16 * 10

-- `h`, `m` and `s` are what is read from the registers 4, 2 and 0 of the clock.
unfoldable pub get_time : ℕ → ℕ → ℕ → ℕ → Bytes → Bytes
unfolding int_to_string
get_time h m s buffer memory =
    let hours = update (int_to_string (from_bcd h) buffer memory) (buffer + 2) b':' in
    let minutes = update (int_to_string (from_bcd m) (buffer + 3) hours) (buffer + 5) b':' in
    int_to_string (from_bcd s) (buffer + 6) minutes

-- The bytes from the address `k` behind `buffer` on.
abbrev pub bytes_from : Bytes → ℕ → ℕ → ℕ → List ℕ
bytes_from memory buffer k zero = []
bytes_from memory buffer k (suc n) = memory (buffer + k) ∷ bytes_from memory buffer (k + 1) n

abbrev pub tens : ℕ → ℕ
tens n = n / 10 + b'0'

abbrev pub ones : ℕ → ℕ
ones n = n % 10 + b'0'

-- How the clock keeps a number below 100.
abbrev pub to_bcd : ℕ → ℕ
to_bcd n = n / 10 * 16 + n % 10

from_bcd-to_bcd : (n : ℕ) → n < 100 → from_bcd (to_bcd n) ≡ n
from_bcd-to_bcd n lt = omega arith

tens_digit : (n : ℕ) → n < 100 → n / 10 % 10 ≡ n / 10
tens_digit n lt = omega arith

-- What is written does not depend on where the buffer lies.
get_time_moved :
    (h m s buffer k : ℕ) (memory : Bytes)
    → get_time h m s buffer memory (buffer + k) ≡ get_time h m s 0 (λ i. memory (buffer + i)) k
unfolding get_time int_to_string
get_time_moved h m s buffer k memory =
    let shift : (a b : ℕ) → b ≡ buffer + a → (b == buffer + k) ≡ (a == k) = λ a b e. ground arith in
    rw
      (
        shift 8 (buffer + 6 + 2) (omega arith),
        shift 7 (buffer + 6 + 1) (omega arith),
        shift 6 (buffer + 6) (omega arith),
        shift 5 (buffer + 5) (omega arith),
        shift 5 (buffer + 3 + 2) (omega arith),
        shift 4 (buffer + 3 + 1) (omega arith),
        shift 3 (buffer + 3) (omega arith),
        shift 2 (buffer + 2) (omega arith),
        shift 1 (buffer + 1) (omega arith),
        shift 0 buffer (omega arith),
      )
      refl

bytes_from-moved :
    (f g : Bytes) (buffer k n : ℕ)
    → ((i : ℕ) → f (buffer + i) ≡ g i)
    → bytes_from f buffer k n ≡ bytes_from g 0 k n
bytes_from-moved f g buffer k zero same = refl
bytes_from-moved f g buffer k (suc n) same =
    let e : 0 + k ≡ k = omega arith in
    rw (e, same k, bytes_from-moved f g buffer (k + 1) n same) refl

-- Nothing is written outside nine bytes.
get_time_outside :
    (h m s buffer address : ℕ) (memory : Bytes)
    → (address < buffer) ⊎ (buffer + 9 ≤ address)
    → get_time h m s buffer memory address ≡ memory address
unfolding get_time int_to_string
get_time_outside h m s buffer address memory (inl lt) = ground arith
get_time_outside h m s buffer address memory (inr le) = ground arith

-- The time is written as `hh:mm:ss` with a 0 behind it, for a clock that keeps its numbers in
-- decimal digits, and no byte but these nine is changed.
get_time_lem :
    (h m s buffer address : ℕ) (memory : Bytes)
    → h < 24
    → m < 60
    → s < 60
    → (address < buffer) ⊎ (buffer + 9 ≤ address)
    → (bytes_from (get_time (to_bcd h) (to_bcd m) (to_bcd s) buffer memory) buffer 0 9
        ≡ tens h ∷ ones h ∷ b':' ∷ tens m ∷ ones m ∷ b':' ∷ tens s ∷ ones s ∷ 0 ∷ [])
      × (get_time (to_bcd h) (to_bcd m) (to_bcd s) buffer memory address ≡ memory address)
unfolding get_time int_to_string
get_time_lem h m s buffer address memory hours minutes seconds outside =
    let moved =
      bytes_from-moved (get_time (to_bcd h) (to_bcd m) (to_bcd s) buffer memory)
        (get_time (to_bcd h) (to_bcd m) (to_bcd s) 0 (λ i. memory (buffer + i))) buffer 0 9
        (λ i. get_time_moved (to_bcd h) (to_bcd m) (to_bcd s) buffer i memory) in
    (
      moved
          ∙ rw
              (
                from_bcd-to_bcd h (omega arith),
                from_bcd-to_bcd m (omega arith),
                from_bcd-to_bcd s (omega arith),
                tens_digit h (omega arith),
                tens_digit m (omega arith),
                tens_digit s (omega arith),
              )
              refl,
      get_time_outside (to_bcd h) (to_bcd m) (to_bcd s) buffer address memory outside,
    )
