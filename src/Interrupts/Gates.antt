-- ===== src/Interrupts/Gates.antt =====
-- Kernel/interrupts.c: which handler the processor finds under a number.
use sistemas_operativos.Base.{
  ℕ, ◌+◌, ◌*◌, ◌%◌, ◌^◌, ◌<◌, ◌≡◌, arith, ap, ◌∙◌, if◌then◌else◌, ◌==◌, leb, ◌&&◌,
}
use sistemas_operativos.Interrupts.{
  IdtEntry, Idt, entry_for, Handler, timer_tick_handler, master, slave, general_protection_handler,
  page_fault_handler, sys_call_handler, keyboard_handler, mouse_handler, load_idt,
}

-- The address that the processor jumps to.
abbrev pub target : IdtEntry → ℕ
target e = e.offset_h * 2 ^ 32 + e.offset_m * 2 ^ 16 + e.offset_l

target-entry_for : (offset : ℕ) → target (entry_for offset) ≡ offset % 2 ^ 48
target-entry_for offset = ground arith

module _ {ℓ} {A : Type ℓ} where
  -- What belongs to the handler of a number, by ranges of numbers; `old` for one without a handler.
  abbrev pub by_number : (Handler → A) → A → ℕ → A
  by_number of old n =
      if n == 0x0D
      then of general_protection_handler
      else if n == 0x0E
      then of page_fault_handler
      else if n == 0x20
      then of timer_tick_handler
      else if n == 0x21
      then of keyboard_handler
      else if leb 0x23 n && leb n 0x27
      then of master
      else if leb 0x28 n && leb n 0x29
      then of slave
      else if n == 0x2C
      then of mouse_handler
      else if leb 0x2A n && leb n 0x2E
      then of master
      else if n == 0x80
      then of sys_call_handler
      else old

  -- The writes of `loadIDT`, the last one first.
  abbrev by_order : (Handler → A) → A → ℕ → A
  by_order of old n =
      if 0x2C == n
      then of mouse_handler
      else if 0x21 == n
      then of keyboard_handler
      else if 0x80 == n
      then of sys_call_handler
      else if 0x0E == n
      then of page_fault_handler
      else if 0x0D == n
      then of general_protection_handler
      else if 0x2E == n
      then of master
      else if 0x2D == n
      then of master
      else if 0x2B == n
      then of master
      else if 0x2A == n
      then of master
      else if 0x29 == n
      then of slave
      else if 0x28 == n
      then of slave
      else if 0x27 == n
      then of master
      else if 0x26 == n
      then of master
      else if 0x25 == n
      then of master
      else if 0x24 == n
      then of master
      else if 0x23 == n
      then of master
      else if 0x20 == n
      then of timer_tick_handler
      else old

  by_order-by_number : (of : Handler → A) (old : A) (n : ℕ) → by_order of old n ≡ by_number of old n
  by_order-by_number of old n = ground arith

module _ {ℓ κ} {A : Type ℓ} {B : Type κ} where
  -- A function of what belongs to a number.
  by_number-ap :
      (f : A → B) (of : Handler → A) (old : A) (n : ℕ)
      → f (by_number of old n) ≡ by_number (λ h. f (of h)) (f old) n
  by_number-ap f of old n = ground arith

-- After `loadIDT` the processor jumps to the handler that belongs to a number, and the entries of
-- the other numbers are as they were, if the addresses of the handlers are below 2 ^ 48: the parts
-- keep no more bits.
load_idt-by_number :
    (address : Handler → ℕ) (idt : Idt) (n : ℕ)
    → ((h : Handler) → address h < 2 ^ 48)
    → target (load_idt address idt n) ≡ by_number address (target (idt n)) n
unfolding load_idt
load_idt-by_number address idt n small =
    let of : Handler → IdtEntry = λ h. entry_for (address h) in
    let same : (h : Handler) → target (of h) ≡ address h =
      λ h. let lt = small h in omega (arith, lt) in
    ap target (by_order-by_number of (idt n) n)
    ∙ by_number-ap target of (idt n) n
    ∙ ap (λ (v : Handler → ℕ). by_number v (target (idt n)) n) (λ i h. same h i)
