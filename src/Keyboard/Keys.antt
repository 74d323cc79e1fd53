-- ===== src/Keyboard/Keys.antt =====
-- Kernel/keyboard.c: what the handler sends, and how its state follows the keys.
use sistemas_operativos.Base.{
  ℕ, zero, suc, ◌+◌, ◌-◌, ◌%◌, ◌≤◌, ◌<◌, ◌≡◌, ◌≢◌, refl, ap, ◌∙◌, arith, List, [], ◌∷◌, length,
  Bool, true, ◌&&◌, ◌||◌, not, if◌then◌else◌, ◌==◌, ltb, leb, get_or,
}
use sistemas_operativos.Keyboard.Table.{
  kbd_en, no_char, left_shift_make, right_shift_make, caps_lock,
}
use sistemas_operativos.Keyboard.{
  Keyboard, entry, send, handle_key, keyboard_handler, on, off, left_shift_break, right_shift_break,
}

all_below : ℕ → (ℕ → Bool) → Bool
all_below zero p = true
all_below (suc n) p = p n && all_below n p

all_below_lem : (n : ℕ) (p : ℕ → Bool) (x : ℕ) → all_below n p ≡ true → x < n → p x ≡ true
unfolding all_below
all_below_lem zero p x h lt = absurd (omega arith)
all_below_lem (suc n) p x h lt = ground (arith, all_below_lem n p x)

abbrev pub is_letter : ℕ → Bool
is_letter a = leb b'a' a && leb a b'z'

-- What the table says of the keys: a letter key has its capital under shift and under caps lock,
-- and its letter under both.
is_letter_row : ℕ → Bool
is_letter_row c =
    let row = get_or kbd_en c [] in
    let a = get_or row 1 0 in
    if is_letter a
    then (get_or row 2 0 == a - 32)
      && (get_or row 3 0 == a - 32)
      && (get_or row 4 0 == a)
      && not (c == 0x3B)
      && not (c == caps_lock)
      && not (c == left_shift_make)
      && not (c == right_shift_make)
    else true

letter_rows : all_below 86 is_letter_row ≡ true
unfolding all_below is_letter_row kbd_en
letter_rows = refl

count_rows : length kbd_en ≡ 86
unfolding kbd_en
count_rows = refl

record IsLetterKey (beyond : ℕ → ℕ → ℕ) (c : ℕ) : Type 0 where
  shifted : entry beyond c 2 ≡ entry beyond c 1 - 32
  caps : entry beyond c 3 ≡ entry beyond c 1 - 32
  both : entry beyond c 4 ≡ entry beyond c 1
  make : c < 0x80
  char : entry beyond c 1 < 128
  not_f1 : c ≢ 0x3B
  not_caps : c ≢ caps_lock
  not_left : c ≢ left_shift_make
  not_right : c ≢ right_shift_make

letter-IsLetterKey :
    (beyond : ℕ → ℕ → ℕ) (c : ℕ)
    → c < length kbd_en
    → is_letter (entry beyond c 1) ≡ true
    → IsLetterKey beyond c
unfolding entry is_letter_row
letter-IsLetterKey beyond c inside letter =
    let row = all_below_lem 86 is_letter_row c letter_rows (omega (arith, count_rows)) in
    let less : ltb c (length kbd_en) ≡ true = ground arith in
    let letter' : is_letter (get_or (get_or kbd_en c []) 1 0) ≡ true = rw less at letter in
    record {
      shifted = rw less (ground arith);
      caps = rw less (ground arith);
      both = rw less (ground arith);
      make = omega (arith, count_rows);
      char = rw less (ground arith);
      not_f1 = ground arith;
      not_caps = ground arith;
      not_left = ground arith;
      not_right = ground arith;
    }

-- A letter key sends its letter, as a capital if just one of shift and caps lock is on.
pub keyboard_handler-letter :
    (beyond : ℕ → ℕ → ℕ) (c : ℕ) (k : Keyboard)
    → c < length kbd_en
    → is_letter (entry beyond c 1) ≡ true
    → keyboard_handler beyond c k
      ≡ send
          (if k.caps == on
            then (if k.shift == on then entry beyond c 1 else entry beyond c 1 - 32)
            else if k.shift == on
            then entry beyond c 1 - 32
            else entry beyond c 1)
          k
unfolding keyboard_handler handle_key
keyboard_handler-letter beyond c k inside letter =
    let v = letter-IsLetterKey beyond c inside letter in ground arith

-- With caps lock on and shift off, the key of the backslash puts -1, which stands for no
-- character, into the terminal buffer.
keyboard_handler-backslash :
    (beyond : ℕ → ℕ → ℕ) (k : Keyboard)
    → k.caps ≡ on
    → k.shift ≢ on
    → keyboard_handler beyond 0x2B k ≡ send no_char k
unfolding keyboard_handler entry kbd_en
keyboard_handler-backslash beyond k caps shift = ground arith

pub run : (ℕ → ℕ → ℕ) → List ℕ → Keyboard → Keyboard
run beyond [] k = k
run beyond (c ∷ codes) k = run beyond codes (keyboard_handler beyond c k)

-- Shift after the codes: as the last shift key says.
abbrev pub shift_after : List ℕ → ℕ → ℕ
shift_after [] s = s
shift_after (c ∷ codes) s = shift_after codes (
    if (c == left_shift_make) || (c == right_shift_make)
    then on
    else if (c == left_shift_break) || (c == right_shift_break)
    then off
    else s)

-- How often caps lock is pressed.
abbrev pub presses : List ℕ → ℕ
presses [] = 0
presses (c ∷ codes) = if c == caps_lock then presses codes + 1 else presses codes

keyboard_handler-state :
    (beyond : ℕ → ℕ → ℕ) (c : ℕ) (k : Keyboard)
    → k.caps ≤ 1
    → ((keyboard_handler beyond c k).shift ≡ shift_after (c ∷ []) k.shift)
      × ((keyboard_handler beyond c k).caps ≡ (k.caps + presses (c ∷ [])) % 2)
unfolding keyboard_handler handle_key
keyboard_handler-state beyond c k le = ground arith

-- After any codes, shift is as the last shift key says, and caps lock is on after an odd number
-- of presses, counted from its state before.
run-state :
    (beyond : ℕ → ℕ → ℕ) (codes : List ℕ) (k : Keyboard)
    → k.caps ≤ 1
    → ((run beyond codes k).shift ≡ shift_after codes k.shift)
      × ((run beyond codes k).caps ≡ (k.caps + presses codes) % 2)
unfolding run
run-state beyond [] k le = (refl, omega arith)
run-state beyond (c ∷ codes) k le =
    let (shift, caps) = keyboard_handler-state beyond c k le in
    let (ih₀, ih₁) = run-state beyond codes (keyboard_handler beyond c k) (omega (arith, caps)) in
    (ih₀ ∙ ap (shift_after codes) shift, ground (arith, ih₁, caps))
