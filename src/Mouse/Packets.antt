-- ===== src/Mouse/Packets.antt =====
-- Kernel/mouse.c: what a whole packet does to the place of the mouse.
use sistemas_operativos.Base.{
  ℕ, ◌+◌, ◌-◌, ◌/◌, ◌<◌, ◌≡◌, refl, ap, ◌∙◌, arith, List, ◌∷◌, Bool, true, false, ◌&&◌, ◌||◌, not,
  if◌then◌else◌, ◌==◌, leb, ltb, add32, sub32,
}
use sistemas_operativos.Printing.{div_ten}
use sistemas_operativos.Screen.{less}
use sistemas_operativos.Mouse.{
  Mouse, bit, relative, unmark, mark, left_button, right_button, new_x, new_y, move, packet,
  take_byte, mouse_handler,
}
use sistemas_operativos.Mouse.Bounds.{packet-cycle}

-- A tenth of the movement forward or back from `place`, if that is below `limit`.
abbrev pub forward : ℕ → ℕ → ℕ → ℕ
forward limit place distance =
    if ltb (place + distance / 10) limit then place + distance / 10 else place

abbrev pub back : ℕ → ℕ → ℕ
back place distance = if leb (distance / 10) place then place - distance / 10 else place

-- What counts as a movement back: the bit of the sign, or the highest bit of the byte.
abbrev pub is_back : Bool → ℕ → Bool
is_back sign byte = sign || leb 128 byte

new_x_lem :
    (m : Mouse)
    → m.x < 80
    → m.byte_1 < 256
    → new_x m ≡ (
        if is_back (bit 4 m.byte_0) m.byte_1
        then back m.x (256 - m.byte_1)
        else forward 80 m.x m.byte_1)
new_x_lem m lt byte = ground arith

new_y_lem :
    (m : Mouse)
    → m.y < 25
    → m.byte_2 < 256
    → new_y m ≡ (
        if is_back (bit 5 m.byte_0) m.byte_2
        then forward 25 m.y (256 - m.byte_2)
        else back m.y m.byte_2)
new_y_lem m lt byte = ground arith

-- What the movement depends on; the buttons leave it.
abbrev Held : Type 0
Held = ℕ × ℕ × ℕ × ℕ × ℕ

abbrev held : Mouse → Held
held m = (m.x, m.y, m.byte_0, m.byte_1, m.byte_2)

if-held :
    (b : Bool) (m n : Mouse) (h : Held) → held m ≡ h → held n ≡ h → held (if b then m else n) ≡ h
if-held true m n h e f = e
if-held false m n h e f = f

left_button-held : (m : Mouse) → held (left_button m) ≡ held m
unfolding left_button unmark mark
left_button-held m =
    if-held (bit 0 m.byte_0) _ _ (held m) (if-held m.selecting _ _ (held m) refl refl)
      (if-held m.selecting _ m (held m) refl refl)

buttons-held : (m : Mouse) → held (right_button (left_button m)) ≡ held m
unfolding right_button
buttons-held m =
    let left = left_button-held m in
    if-held (bit 1 ((left_button m).byte_0)) _ _ (held m) left
      (if-held ((left_button m).flag) _ (left_button m) (held m) left left)

-- `new_x` and `new_y` of what they depend on.
abbrev moved_x : Held → ℕ
moved_x h =
    let there = add32 h.0 (div_ten (relative (bit 4 h.2) h.3)) in
    if less there 80 && not (less there 0) then there else h.0

abbrev moved_y : Held → ℕ
moved_y h =
    let there = sub32 h.1 (div_ten (relative (bit 5 h.2) h.4)) in
    if less there 25 && not (less there 0) then there else h.1

packet-new :
    (m : Mouse)
    → (bit 7 m.byte_0 || bit 6 m.byte_0) ≡ false
    → ((packet m).x ≡ new_x m) × ((packet m).y ≡ new_y m)
unfolding packet move
packet-new m fits =
    let same = buttons-held m in
    (rw fits (ap (λ (h : Held). moved_x h) same), rw fits (ap (λ (h : Held). moved_y h) same))

take_byte-first :
    (b : ℕ) (m : Mouse)
    → m.mouse_cycle ≡ 0
    → bit 3 b ≡ true
    → take_byte b m ≡ (false, record m { byte_0 = b; mouse_cycle = 1 })
unfolding take_byte
take_byte-first b m start whole =
    let zero_ : (m.mouse_cycle == 0) ≡ true = ground arith in rw (zero_, whole) refl

take_byte-second :
    (b : ℕ) (m : Mouse)
    → take_byte b (record m { mouse_cycle = 1 }) ≡ (false, record m { byte_1 = b; mouse_cycle = 2 })
unfolding take_byte
take_byte-second b m = refl

take_byte-third :
    (b : ℕ) (m : Mouse)
    → take_byte b (record m { mouse_cycle = 2 })
      ≡ (false, packet (record m { byte_2 = b; mouse_cycle = 2 }))
unfolding take_byte
take_byte-third b m = refl

-- One more byte of the mouse, in a packet that goes on and as its last one.
mouse_handler_on :
    (b : ℕ) (input : List (ℕ × ℕ)) (m m' : Mouse)
    → take_byte b m ≡ (false, m')
    → leb 4 m'.mouse_cycle ≡ false
    → mouse_handler ((0x21, b) ∷ input) m ≡ mouse_handler input m'
unfolding mouse_handler
mouse_handler_on b input m m' e goes = rw (e, goes) refl

mouse_handler_end :
    (b : ℕ) (input : List (ℕ × ℕ)) (m m' : Mouse)
    → take_byte b m ≡ (false, m')
    → leb 4 m'.mouse_cycle ≡ true
    → mouse_handler ((0x21, b) ∷ input) m ≡ (record m' { mouse_cycle = 0 }, input)
unfolding mouse_handler
mouse_handler_end b input m m' e full = rw (e, full) refl

mouse_handler-packet :
    (b₀ b₁ b₂ : ℕ) (input : List (ℕ × ℕ)) (m : Mouse)
    → m.mouse_cycle ≡ 0
    → bit 3 b₀ ≡ true
    → mouse_handler ((0x21, b₀) ∷ (0x21, b₁) ∷ (0x21, b₂) ∷ input) m ≡ (
      record (packet (record m { byte_0 = b₀; byte_1 = b₁; byte_2 = b₂; mouse_cycle = 2 })) {
        mouse_cycle = 0;
      },
      input,
    )
mouse_handler-packet b₀ b₁ b₂ input m start whole =
    let one : Mouse = record m { byte_0 = b₀; mouse_cycle = 1 } in
    let two : Mouse = record m { byte_0 = b₀; byte_1 = b₁; mouse_cycle = 2 } in
    let full : Mouse = record m { byte_0 = b₀; byte_1 = b₁; byte_2 = b₂; mouse_cycle = 2 } in
    let complete : leb 4 ((packet full).mouse_cycle) ≡ true =
      ap (λ n. leb 4 n) (packet-cycle full) in
    mouse_handler_on b₀ ((0x21, b₁) ∷ (0x21, b₂) ∷ input) m one (take_byte-first b₀ m start whole)
      refl
    ∙ mouse_handler_on b₁ ((0x21, b₂) ∷ input) one two (take_byte-second b₁ one) refl
    ∙ mouse_handler_end b₂ input two (packet full) (take_byte-third b₂ two) complete

-- A packet of three bytes from the mouse, read without a pause, moves the mouse by a tenth of each
-- distance, where that stays on the screen, and leaves the readings behind it; downwards on the
-- screen is back. A distance forward of 128 or more is taken for one back.
pub packet_moves :
    (b₀ b₁ b₂ : ℕ) (input : List (ℕ × ℕ)) (m : Mouse)
    → m.mouse_cycle ≡ 0
    → m.x < 80
    → m.y < 25
    → b₁ < 256
    → b₂ < 256
    → bit 3 b₀ ≡ true
    → (bit 7 b₀ || bit 6 b₀) ≡ false
    → let r = mouse_handler ((0x21, b₀) ∷ (0x21, b₁) ∷ (0x21, b₂) ∷ input) m in
      ((r.0).x ≡ (if is_back (bit 4 b₀) b₁ then back m.x (256 - b₁) else forward 80 m.x b₁))
      × ((r.0).y ≡ (if is_back (bit 5 b₀) b₂ then forward 25 m.y (256 - b₂) else back m.y b₂))
      × ((r.0).mouse_cycle ≡ 0)
      × (r.1 ≡ input)
packet_moves b₀ b₁ b₂ input m start column row first second whole fits =
    let full : Mouse = record m { byte_0 = b₀; byte_1 = b₁; byte_2 = b₂; mouse_cycle = 2 } in
    let there = packet-new full fits in
    rw (mouse_handler-packet b₀ b₁ b₂ input m start whole)
      (there.0 ∙ new_x_lem full column first, there.1 ∙ new_y_lem full row second, refl, refl)
