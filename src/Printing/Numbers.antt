-- ===== src/Printing/Numbers.antt =====
-- Kernel/stdio.c, `putNumber`: the digits printed stand for the number.
use sistemas_operativos.Base.{
  ℕ, zero, suc, ◌+◌, ◌-◌, ◌*◌, ◌/◌, ◌%◌, ◌^◌, ◌≤◌, ◌<◌, ◌≡◌, ◌≢◌, refl, ◌∙◌, arith, List, [], ◌∷◌,
  ◌==◌, Bool-cases, inl, inr, non_negative, if◌then◌else◌,
}
use sistemas_operativos.Printing.{div_ten, mod_ten, digit, number_loop, put_number, negate}

-- The number that a list of decimal digits stands for, with `n` in front.
abbrev pub number_from : ℕ → List ℕ → ℕ
number_from n [] = n
number_from n (c ∷ text) = number_from (n * 10 + (c - b'0')) text

abbrev pub Digits : List ℕ → Type 0
Digits [] = Unit
Digits (c ∷ text) = ((b'0' ≤ c) × (c ≤ b'9')) × Digits text

abbrev pow10 : ℕ → ℕ
pow10 zero = 1
pow10 (suc k) = 10 * pow10 k

pow10-pos : (fuel n : ℕ) → n < pow10 fuel → n ≢ 0 → 0 < fuel
pow10-pos zero n lt ne = absurd (ne (omega arith))
pow10-pos (suc fuel) n lt ne = omega arith

number_loop_lem :
    (fuel n : ℕ) (buffer : List ℕ)
    → n < 2 ^ 31
    → n < pow10 fuel
    → 0 < fuel
    → Digits buffer
    → (number_from 0 (number_loop fuel n buffer) ≡ number_from n buffer)
      × Digits (number_loop fuel n buffer)
unfolding number_loop
number_loop_lem zero n buffer int small pos digits = absurd (omega arith)
number_loop_lem (suc fuel) n buffer int small pos digits =
    let tenth : div_ten n ≡ n / 10 = ground arith in
    let last : mod_ten n ≡ n % 10 = ground arith in
    elim (Bool-cases (n / 10 == 0)) [
      | inl single ↦
          let e : digit n ≡ n + b'0' = ground arith in
          let f : 0 * 10 + (n + b'0' - b'0') ≡ n = omega arith in
          rw (tenth, single, e, f) (refl, (ground arith, digits))
      | inr more ↦
          let e : digit (n % 10) ≡ n % 10 + b'0' = omega arith in
          let f : n / 10 * 10 + (n % 10 + b'0' - b'0') ≡ n = omega arith in
          let ih =
            number_loop_lem fuel (n / 10) ((n % 10 + b'0') ∷ buffer) (omega arith) (omega arith)
              (pow10-pos fuel (n / 10) (omega arith) (ground arith)) (omega arith, digits) in
          rw (tenth, last, more, e) (ih.0 ∙ rw f, ih.1)
    ]

put_number-number_loop :
    (n : ℕ)
    → put_number n
      ≡ (if non_negative n then number_loop 10 n [] else b'-' ∷ number_loop 10 (negate n) [])
unfolding put_number
put_number-number_loop n = refl

number_loop-Digits :
    (n : ℕ) → n < 2 ^ 31 → (number_from 0 (number_loop 10 n []) ≡ n) × Digits (number_loop 10 n [])
number_loop-Digits n int = number_loop_lem 10 n [] int (omega arith) (omega arith) tt

-- Every `int` but the least is printed as its decimal digits, behind a minus sign if it is negative.
pub put_number-number_from :
    (n : ℕ)
    → n < 2 ^ 32
    → n ≢ 2 ^ 31
    → (text : List ℕ) × (put_number n ≡ (if non_negative n then text else b'-' ∷ text))
      × Digits text
      × (number_from 0 text ≡ (if non_negative n then n else 2 ^ 32 - n))
put_number-number_from n int least = elim (Bool-cases (non_negative n)) [
  | inl positive ↦
      let v = number_loop-Digits n (ground arith) in
      (number_loop 10 n [], put_number-number_loop n ∙ rw positive, v.1, v.0 ∙ rw positive)
  | inr negative ↦
      let e : negate n ≡ 2 ^ 32 - n = ground arith in
      let v = number_loop-Digits (2 ^ 32 - n) (ground arith) in
      (
        number_loop 10 (2 ^ 32 - n) [],
        put_number-number_loop n ∙ rw (negative, e),
        v.1,
        v.0 ∙ rw negative,
      )
]
