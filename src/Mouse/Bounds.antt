-- ===== src/Mouse/Bounds.antt =====
-- Kernel/mouse.c: where the mouse and the ends of the selection are.
use sistemas_operativos.Base.{
  ℕ, ◌^◌, ◌<◌, ◌≡◌, refl, arith, List, [], ◌∷◌, Bool, true, false, ◌&&◌, ◌||◌, not, if◌then◌else◌,
  ◌==◌, leb, Bool-cases, ◌⊎◌, inl, inr, add32, sub32,
}
use sistemas_operativos.Printing.{div_ten}
use sistemas_operativos.Screen.{less}
use sistemas_operativos.Mouse.{
  Mouse, bit, relative, unmark, mark, left_button, right_button, new_x, new_y, move, packet,
  take_byte, mouse_handler,
}

pub record Within (x y xinit yinit xfin yfin : ℕ) : Type 0 where
  pub column : x < 80
  pub row : y < 25
  pub first_column : xinit < 80
  pub first_row : yinit < 25
  pub last_column : xfin < 80
  pub last_row : yfin < 25

-- The mouse and the ends of the selection are on the screen.
abbrev pub IsOnScreen : Mouse → Type 0
IsOnScreen m = Within m.x m.y m.xinit m.yinit m.xfin m.yfin

bounded :
    (hi there old : ℕ)
    → hi < 2 ^ 31
    → there < 2 ^ 32
    → old < hi
    → (if less there hi && not (less there 0) then there else old) < hi
bounded hi there old small pattern inside = ground arith

new_x-bounded : (m : Mouse) → m.x < 80 → new_x m < 80
new_x-bounded m lt =
    bounded 80 (add32 m.x (div_ten (relative (bit 4 m.byte_0) m.byte_1))) m.x (omega arith)
      (omega arith) lt

new_y-bounded : (m : Mouse) → m.y < 25 → new_y m < 25
new_y-bounded m lt =
    bounded 25 (sub32 m.y (div_ten (relative (bit 5 m.byte_0) m.byte_2))) m.y (omega arith)
      (omega arith) lt

if-IsOnScreen :
    (b : Bool) (m n : Mouse) → IsOnScreen m → IsOnScreen n → IsOnScreen (if b then m else n)
if-IsOnScreen true m n h k = h
if-IsOnScreen false m n h k = k

-- Where the mouse is, the selection may begin or end.
left_button-IsOnScreen : (m : Mouse) → IsOnScreen m → IsOnScreen (left_button m)
unfolding left_button unmark mark
left_button-IsOnScreen m on =
    let extended : Mouse = record (unmark m) { xfin = m.x; yfin = m.y } in
    let begun : Mouse = record m {
      selecting = true;
      xinit = m.x;
      yinit = m.y;
      xfin = m.x;
      yfin = m.y;
    } in
    let longer : IsOnScreen extended = record {
      column = on.column;
      row = on.row;
      first_column = on.first_column;
      first_row = on.first_row;
      last_column = on.column;
      last_row = on.row;
    } in
    let first : IsOnScreen begun = record {
      column = on.column;
      row = on.row;
      first_column = on.column;
      first_row = on.row;
      last_column = on.column;
      last_row = on.row;
    } in
    if-IsOnScreen (bit 0 m.byte_0) _ _ (if-IsOnScreen m.selecting extended begun longer first)
      (if-IsOnScreen m.selecting _ m on on)

right_button-IsOnScreen : (m : Mouse) → IsOnScreen m → IsOnScreen (right_button m)
unfolding right_button
right_button-IsOnScreen m on =
    if-IsOnScreen (bit 1 m.byte_0) _ _ on (if-IsOnScreen m.flag _ m on on)

move-IsOnScreen : (m : Mouse) → IsOnScreen m → IsOnScreen (move m)
unfolding move
move-IsOnScreen m on = record {
  column = new_x-bounded m on.column;
  row = new_y-bounded m on.row;
  first_column = on.first_column;
  first_row = on.first_row;
  last_column = on.last_column;
  last_row = on.last_row;
}

packet-IsOnScreen : (m : Mouse) → IsOnScreen m → IsOnScreen (packet m)
unfolding packet
packet-IsOnScreen m on = if-IsOnScreen (bit 7 m.byte_0 || bit 6 m.byte_0) _ _ on (
    move-IsOnScreen (right_button (left_button m))
      (right_button-IsOnScreen (left_button m) (left_button-IsOnScreen m on)))

pub packet-cycle : (m : Mouse) → (packet m).mouse_cycle ≡ 4
unfolding packet
packet-cycle m = ground arith

-- A packet goes on or is complete.
abbrev Goes : Bool × Mouse → Type 0
Goes r = IsOnScreen (r.1) × (((r.1).mouse_cycle < 3) ⊎ ((r.0 ≡ false) × ((r.1).mouse_cycle ≡ 4)))

take_byte-Goes : (b : ℕ) (m : Mouse) → m.mouse_cycle < 3 → IsOnScreen m → Goes (take_byte b m)
unfolding take_byte
take_byte-Goes b m lt on =
    let third : Mouse = record m { byte_2 = b } in
    elim (Bool-cases (m.mouse_cycle == 0)) [
      | inl zero_ ↦ elim (Bool-cases (bit 3 b)) [
        | inl good ↦ rw (zero_, good) (on, inl (omega arith))
        | inr bad ↦ rw (zero_, bad) (on, inl lt)
      ]
      | inr later ↦ elim (Bool-cases (m.mouse_cycle == 1)) [
        | inl one ↦ rw (later, one) (on, inl (omega arith))
        | inr last ↦
            let two : (m.mouse_cycle == 2) ≡ true = ground arith in
            rw (later, last, two) (packet-IsOnScreen third on, inr (refl, packet-cycle third))
      ]
    ]

abbrev Ends : Mouse × List (ℕ × ℕ) → Type 0
Ends r = ((r.0).mouse_cycle < 3) × IsOnScreen (r.0)

-- What the handler does behind the `switch`.
Goes-Ends :
    (r : Bool × Mouse) (input : List (ℕ × ℕ)) (rest : Mouse × List (ℕ × ℕ))
    → Goes r
    → ((r.1).mouse_cycle < 3 → Ends rest)
    → Ends (
        if r.0
        then (r.1, input)
        else if leb 4 ((r.1).mouse_cycle)
        then (record (r.1) { mouse_cycle = 0 }, input)
        else rest)
Goes-Ends (true, m) input rest (on, inl lt) h = (lt, on)
Goes-Ends (true, m) input rest (on, inr (e, four)) h = cc
Goes-Ends (false, m) input rest (on, inl lt) h =
    let under : leb 4 m.mouse_cycle ≡ false = ground arith in rw under (h lt)
Goes-Ends (false, m) input rest (on, inr (e, four)) h =
    let full : leb 4 m.mouse_cycle ≡ true = ground arith in rw full (omega arith, on)

-- Whatever the ports give, when the handler comes back the mouse and the ends of the selection are
-- on the screen, if they were, and at most two bytes of a packet wait for the third.
pub mouse_handler-IsOnScreen :
    (input : List (ℕ × ℕ)) (m : Mouse)
    → m.mouse_cycle < 3
    → IsOnScreen m
    → (((mouse_handler input m).0).mouse_cycle < 3) × IsOnScreen ((mouse_handler input m).0)
unfolding mouse_handler
mouse_handler-IsOnScreen [] m lt on = (lt, on)
mouse_handler-IsOnScreen ((status, b) ∷ input) m lt on =
    let taken : Bool × Mouse = if bit 5 status then take_byte b m else (false, m) in
    let goes : Goes taken = elim (Bool-cases (bit 5 status)) [
      | inl ours ↦ rw ours (take_byte-Goes b m lt on)
      | inr keys ↦ rw keys (on, inl lt)
    ] in
    elim (Bool-cases (bit 0 status)) [
      | inl ready ↦ rw ready (
          Goes-Ends taken input (mouse_handler input (taken.1)) goes
            (λ less_. mouse_handler-IsOnScreen input (taken.1) less_ (goes.0)))
      | inr empty ↦ rw empty (lt, on)
    ]
