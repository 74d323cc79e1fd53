-- ===== src/Philosophers/Parameters.antt =====
-- Userland/dummy/dummy.c: `isNotInteger` and `validateParameters`. Texts that are printed are left
-- out; an `int` is its bit pattern, and a `char` its byte.
use sistemas_operativos.Base.{
  ℕ, zero, suc, ◌+◌, ◌-◌, ◌*◌, ◌%◌, ◌^◌, ◌<◌, ◌≤◌, ◌≡◌, refl, ap, ◌∙◌, arith, List, [], ◌∷◌, ◌++◌,
  append_assoc, length, length-append, get_or, Bool, true, ◌&&◌, not, if◌then◌else◌, ◌==◌, ltb, leb,
  neg, non_negative,
}
use sistemas_operativos.Philosophers.{defaultp}
use sistemas_operativos.Printing.{put_number}
use sistemas_operativos.Printing.Numbers.{number_from, Digits, put_number-number_from}

-- The loop of `strlen`.
unfoldable pub strlen : List ℕ → ℕ
strlen c = length c

abbrev pub is_digit : ℕ → Bool
is_digit c = leb b'0' c && leb c b'9'

-- The loop of `isNotInteger` from index `i` on, with the rounds left.
pub integer_loop : ℕ → ℕ → List ℕ → ℕ → ℕ
integer_loop zero i c integer = integer
integer_loop (suc n) i c integer =
    let current = get_or c i 0 in
    let rest = integer_loop n (i + 1) c ((integer * 10 + (current - b'0')) % 2 ^ 32) in
    if not (is_digit current) then neg 1 else rest

unfoldable pub is_not_integer : List ℕ → ℕ
unfolding integer_loop strlen
is_not_integer c = integer_loop (strlen c) 0 c 0

-- The result and what lies in `input`; `second` is the second of the parameters.
unfoldable pub validate_parameters : ℕ → List ℕ → ℕ → ℕ × ℕ
unfolding is_not_integer
validate_parameters cant second input =
    let value = if cant == 1 then defaultp else is_not_integer second in
    if non_negative cant && ltb 2 cant
    then (neg 1, input)
    else if value == neg 1
    then (neg 1, value)
    else if non_negative value && leb 100 value
    then (neg 1, value)
    else (0, value)

-- The loop on what is left of the text.
integer_of : List ℕ → ℕ → ℕ
integer_of [] integer = integer
integer_of (c ∷ text) integer =
    let rest = integer_of text ((integer * 10 + (c - b'0')) % 2 ^ 32) in
    if not (is_digit c) then neg 1 else rest

get_or-shift :
    (before text : List ℕ) (i : ℕ) → get_or (before ++ text) (length before + i) 0 ≡ get_or text i 0
get_or-shift [] text i = ap (λ (n : ℕ). get_or text n 0) (omega arith)
get_or-shift (x ∷ before) text i =
    let e : suc (length before) + i ≡ suc (length before + i) = omega arith in
    rw e (get_or-shift before text i)

integer_loop-integer_of :
    (before text : List ℕ) (integer : ℕ)
    → integer_loop (length text) (length before) (before ++ text) integer ≡ integer_of text integer
unfolding integer_loop integer_of
integer_loop-integer_of before [] integer = refl
integer_loop-integer_of before (c ∷ text) integer =
    let zeroth : length before + 0 ≡ length before = omega arith in
    let here : get_or (before ++ c ∷ text) (length before) 0 ≡ c =
      rw zeroth at (get_or-shift before (c ∷ text) 0) in
    let longer : length (before ++ c ∷ []) ≡ length before + 1 = length-append before (c ∷ []) in
    let whole : (before ++ c ∷ []) ++ text ≡ before ++ c ∷ text =
      append_assoc before (c ∷ []) text in
    let ih =
      integer_loop-integer_of (before ++ c ∷ []) text ((integer * 10 + (c - b'0')) % 2 ^ 32) in
    rw here (ap (λ (n : ℕ). if not (is_digit c) then neg 1 else n) (rw (longer, whole) at ih))

number_from-le : (n : ℕ) (text : List ℕ) → n ≤ number_from n text
number_from-le n [] = omega arith
number_from-le n (c ∷ text) = omega (arith, number_from-le (n * 10 + (c - b'0')) text)

integer_of-number_from :
    (n : ℕ) (text : List ℕ)
    → Digits text
    → number_from n text < 2 ^ 32
    → integer_of text n ≡ number_from n text
unfolding integer_of
integer_of-number_from n [] digits small = refl
integer_of-number_from n (c ∷ text) digits small =
    let le = number_from-le (n * 10 + (c - b'0')) text in
    let fits : (n * 10 + (c - b'0')) % 2 ^ 32 ≡ n * 10 + (c - b'0') = omega (arith, le, small) in
    let digit : is_digit c ≡ true = ground (arith, digits.0) in
    rw (digit, fits) (integer_of-number_from (n * 10 + (c - b'0')) text (digits.1) small)

is_not_integer-number_from :
    (text : List ℕ)
    → Digits text
    → number_from 0 text < 2 ^ 32
    → is_not_integer text ≡ number_from 0 text
unfolding is_not_integer strlen
is_not_integer-number_from text digits small =
    integer_loop-integer_of [] text 0 ∙ integer_of-number_from 0 text digits small

-- `isNotInteger` reads back every number that `putNumber` prints, if it is not negative.
is_not_integer-put_number : (n : ℕ) → n < 2 ^ 31 → is_not_integer (put_number n) ≡ n
is_not_integer-put_number n small =
    let v = put_number-number_from n (omega arith) (λ e. omega (arith, e)) in
    let positive : non_negative n ≡ true = ground arith in
    let printed : put_number n ≡ v.0 = v.1 ∙ rw positive in
    let value : number_from 0 (v.0) ≡ n = v.3 ∙ rw positive in
    rw printed (is_not_integer-number_from (v.0) (v.2) (omega (arith, value)) ∙ value)

-- A second parameter of digits that stand for less than 2 ^ 31 is accepted exactly below 100.
validate_parameters_lem :
    (text : List ℕ) (input : ℕ)
    → Digits text
    → number_from 0 text < 2 ^ 31
    → validate_parameters 2 text input
      ≡ ((if ltb (number_from 0 text) 100 then 0 else neg 1), number_from 0 text)
unfolding validate_parameters
validate_parameters_lem text input digits small =
    rw (is_not_integer-number_from text digits (omega arith)) (ground arith)
