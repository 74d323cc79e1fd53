-- ===== src/Console/Digits.antt =====
-- Kernel/naiveConsole.c, `uintToBase`: the digits stand for the value.
use sistemas_operativos.Base.{
  ℕ, zero, suc, ◌+◌, ◌-◌, ◌*◌, ◌/◌, ◌%◌, ◌^◌, ◌≤◌, ◌<◌, ◌≡◌, ◌≢◌, refl, ap, ◌∙◌, arith, ◌==◌, ltb,
  leb, dec_lt, ◌&&◌, if◌then◌else◌, Bool-cases, inl, inr, true, false, update, update_self,
  update_ne, some,
}
use sistemas_operativos.Console.{digit, digit_loop, swap_loop, uint_to_base, buffer_size}

-- What a digit stands for.
abbrev pub digit_value : ℕ → ℕ
digit_value c = if leb c b'9' then c - b'0' else c + 10 - b'A'

digit_value-digit : (r : ℕ) → digit_value (digit r) ≡ r
digit_value-digit r = ground arith

-- The number that `n` digits of a text stand for, the first one counting most.
abbrev pub value_of : ℕ → ℕ → (ℕ → ℕ) → ℕ
value_of base zero text = 0
value_of base (suc n) text = digit_value (text n) + base * value_of base n text

-- The same for `n` digits from `p` on, the first one counting least.
abbrev low_value : ℕ → ℕ → ℕ → (ℕ → ℕ) → ℕ
low_value base zero p text = 0
low_value base (suc n) p text = digit_value (text p) + base * low_value base n (p + 1) text

abbrev pub pow2 : ℕ → ℕ
pow2 zero = 1
pow2 (suc n) = 2 * pow2 n

div_mod : (value base : ℕ) → 2 ≤ base → value % base + base * (value / base) ≡ value
div_mod value base h = grind arith

div-lt : (value base m : ℕ) → 2 ≤ base → value < 2 * m → value / base < m
div-lt value base m h lt = grind (arith, div_mod value base h)

abbrev swapped : ℕ → ℕ → (ℕ → ℕ) → ℕ → ℕ
swapped p₁ p₂ buffer = update (update buffer p₁ (buffer p₂)) p₂ (buffer p₁)

-- Between two places every character goes to the place as far from the other end.
swap_loop_lem :
    (fuel p₁ p₂ : ℕ) (buffer : ℕ → ℕ) (j : ℕ)
    → p₂ < p₁ + fuel
    → swap_loop fuel p₁ p₂ buffer j
      ≡ (if leb p₁ j && leb j p₂ then buffer (p₁ + p₂ - j) else buffer j)
unfolding swap_loop
swap_loop_lem zero p₁ p₂ buffer j h =
    let none_inside : (leb p₁ j && leb j p₂) ≡ false = ground arith in rw none_inside
swap_loop_lem (suc fuel) p₁ p₂ buffer j h = elim (dec_lt p₁ p₂) [
  | yes apart ↦
      let goes : ltb p₁ p₂ ≡ true = ground arith in
      let ih = swap_loop_lem fuel (p₁ + 1) (p₂ - 1) (swapped p₁ p₂ buffer) j (omega arith) in
      let mirror : p₁ + 1 + (p₂ - 1) - j ≡ p₁ + p₂ - j = omega arith in
      rw goes (ih ∙ rw mirror (ground arith))
  | no met ↦
      let stops : ltb p₁ p₂ ≡ false = ground arith in
      rw stops (elim (Bool-cases (leb p₁ j && leb j p₂)) [
        | inl there ↦ let e : p₁ + p₂ - j ≡ j = ground arith in rw (there, e)
        | inr elsewhere ↦ rw elsewhere
      ])
]

pow2-pos : (fuel value : ℕ) → value < pow2 fuel → value ≢ 0 → 0 < fuel
pow2-pos zero value lt ne = absurd (ne (omega arith))
pow2-pos (suc fuel) value lt ne = omega arith

-- What the first loop leaves: `n` digits from place `p` on, which stand for the value.
record IsWritten (fuel base value p : ℕ) (before : ℕ → ℕ) : Type 0 where
  n : ℕ
  text : ℕ → ℕ
  ends : digit_loop fuel base value p before ≡ some (p + n, text)
  some_digit : 0 < n
  enough : n ≤ fuel
  low : low_value base n p text ≡ value
  binary : base ≡ 2 → value < pow2 n
  keep : (k : ℕ) → k < p → text k ≡ before k

digit_loop-IsWritten :
    (fuel base value p : ℕ) (buffer : ℕ → ℕ)
    → 2 ≤ base
    → value < pow2 fuel
    → 0 < fuel
    → IsWritten fuel base value p buffer
unfolding digit_loop
digit_loop-IsWritten zero base value p buffer h lt pos = absurd (omega arith)
digit_loop-IsWritten (suc fuel) base value p buffer h lt pos =
    elim (Bool-cases (value / base == 0)) [
      | inl last ↦
          let gone : value / base ≡ 0 = ground arith in
          record {
            n = 1;
            text = update buffer p (digit (value % base));
            ends = rw last;
            some_digit = omega arith;
            enough = omega arith;
            low =
                rw (update_self buffer p (digit (value % base)), digit_value-digit (value % base))
                  (grind (arith, div_mod value base h));
            binary = λ two. grind (arith, div_mod value base h);
            keep = λ k below. update_ne buffer p k (digit (value % base)) (omega arith);
          }
      | inr more ↦
          let v =
            digit_loop-IsWritten fuel base (value / base) (p + 1)
              (update buffer p (digit (value % base))) h (div-lt value base (pow2 fuel) h lt)
              (pow2-pos fuel (value / base) (div-lt value base (pow2 fuel) h lt) (ground arith)) in
          let same : p + 1 + v.n ≡ p + suc v.n = omega arith in
          let first : v.text p ≡ digit (value % base) =
            v.keep p (omega arith) ∙ update_self buffer p (digit (value % base)) in
          record {
            n = suc v.n;
            text = v.text;
            ends = rw more (rw same at (v.ends));
            some_digit = omega arith;
            enough = omega (arith, v.enough);
            low = rw (first, digit_value-digit (value % base), v.low) (div_mod value base h);
            binary = λ two. grind (arith, div_mod value base h, v.binary two);
            keep = λ k below.
                v.keep k (omega arith) ∙ update_ne buffer p k (digit (value % base)) (omega arith);
          }
    ]

pow2_mono : (m n : ℕ) → m ≤ n → pow2 m ≤ pow2 n
pow2_mono zero zero h = omega arith
pow2_mono zero (suc n) h = omega (arith, pow2_mono zero n (omega arith))
pow2_mono (suc m) zero h = absurd (omega arith)
pow2_mono (suc m) (suc n) h = omega (arith, pow2_mono m n (omega arith))

-- The first `k` digits of the turned text are the last `k` of the text before.
value_of-turned :
    (base n : ℕ) (text turned : ℕ → ℕ)
    → ((j : ℕ) → j < n → turned j ≡ text (n - 1 - j))
    → (k : ℕ) → k ≤ n
    → value_of base k turned ≡ low_value base k (n - k) text
value_of-turned base n text turned h zero le = refl
value_of-turned base n text turned h (suc k) le =
    let e : n - 1 - k ≡ n - suc k = omega arith in
    let f : n - suc k + 1 ≡ n - k = omega arith in
    rw (h k (omega arith), value_of-turned base n text turned h k (omega arith), e, f)

module _ (n : ℕ) (text : ℕ → ℕ) (some_digit : 0 < n) where
  turned : ℕ → ℕ
  turned = swap_loop n 0 (n - 1) (update text n 0)

  turned_lem : (j : ℕ) → j < n → turned j ≡ text (n - 1 - j)
  unfolding turned
  turned_lem j lt =
      let inside : (leb 0 j && leb j (n - 1)) ≡ true = ground arith in
      let e : 0 + (n - 1) - j ≡ n - 1 - j = omega arith in
      swap_loop_lem n 0 (n - 1) (update text n 0) j (omega arith)
      ∙ rw (inside, e) (update_ne text n (n - 1 - j) 0 (omega arith))

  turned_end : turned n ≡ 0
  unfolding turned
  turned_end =
      let behind : (leb 0 n && leb n (n - 1)) ≡ false = ground arith in
      swap_loop_lem n 0 (n - 1) (update text n 0) n (omega arith) ∙ rw behind (update_self text n 0)

uint_to_base-turned :
    (value : ℕ) (buffer : ℕ → ℕ) (base : ℕ) (v : IsWritten 64 base value 0 buffer)
    → uint_to_base value buffer base ≡ some (v.n, turned v.n v.text v.some_digit)
unfolding uint_to_base turned
uint_to_base-turned value buffer base v =
    let e : 0 + v.n ≡ v.n = omega arith in rw (v.ends, uint_to_base, e)

-- `uintToBase` of a 64-bit value in a base of at least 2 ends with between 1 and 64 digits, read
-- from the start of the buffer they stand for the value, and a 0 is behind them.
uint_to_base-value_of :
    (value : ℕ) (buffer : ℕ → ℕ) (base : ℕ)
    → value < 2 ^ 64
    → 2 ≤ base
    → (digits : ℕ) × (text : ℕ → ℕ) × (uint_to_base value buffer base ≡ some (digits, text))
      × (0 < digits)
      × (digits ≤ 64)
      × (value_of base digits text ≡ value)
      × (text digits ≡ 0)
unfolding uint_to_base
uint_to_base-value_of value buffer base small h =
    let v = digit_loop-IsWritten 64 base value 0 buffer h small (omega arith) in
    let e : v.n - v.n ≡ 0 = omega arith in
    (
      v.n,
      turned v.n v.text v.some_digit,
      uint_to_base-turned value buffer base v,
      v.some_digit,
      v.enough,
      value_of-turned base v.n v.text (turned v.n v.text v.some_digit)
            (turned_lem v.n v.text v.some_digit) v.n (omega arith)
          ∙ rw e v.low,
      turned_end v.n v.text v.some_digit,
    )

-- A value of 2 ^ 63 or more takes 64 binary digits, so that the 0 behind them is written outside
-- the buffer.
uint_to_base_overflows :
    (value : ℕ) (buffer : ℕ → ℕ)
    → 2 ^ 63 ≤ value
    → value < 2 ^ 64
    → (text : ℕ → ℕ) × (uint_to_base value buffer 2 ≡ some (buffer_size, text))
uint_to_base_overflows value buffer large small =
    let v = digit_loop-IsWritten 64 2 value 0 buffer (omega arith) small (omega arith) in
    let full : v.n ≡ 64 = elim (dec_lt v.n 64) [
      | yes short ↦ absurd (omega (arith, v.binary refl, pow2_mono v.n 63 (omega arith)))
      | no long ↦ omega (arith, v.enough)
    ] in
    (
      turned v.n v.text v.some_digit,
      uint_to_base-turned value buffer 2 v
          ∙ ap (λ (k : ℕ). some (k, turned v.n v.text v.some_digit)) full,
    )
