-- ===== src/Interrupts.antt =====
-- Kernel/interrupts.c: the table of interrupt descriptors that `loadIDT` fills.
pub mod Gates
pub mod Tests
use sistemas_operativos.Base.{ℕ, ◌+◌, ◌*◌, ◌/◌, ◌%◌, ◌^◌, update, if◌then◌else◌, ◌==◌}

-- The fields of `IDT_Entry`.
pub record IdtEntry : Type 0 where
  pub offset_l : ℕ
  pub selector : ℕ
  pub zero_l : ℕ
  pub attrs : ℕ
  pub offset_m : ℕ
  pub offset_h : ℕ
  pub zero_h : ℕ

-- The table from address 0 on.
abbrev pub Idt : Type 0
Idt = ℕ → IdtEntry

-- Every part of the address is cut to 16 bits.
abbrev pub entry_for : ℕ → IdtEntry
entry_for offset = record {
  offset_l = offset % 2 ^ 16;
  selector = 0x08;
  zero_l = 0;
  attrs = 0x8E;
  offset_m = offset / 2 ^ 16 % 2 ^ 16;
  offset_h = offset / 2 ^ 32 % 2 ^ 16;
  zero_h = 0;
}

abbrev pub set_idt_entry : ℕ → ℕ → Idt → Idt
set_idt_entry offset entry idt = update idt entry (entry_for offset)

-- The handlers of Kernel/asm/libasm.asm, whose addresses are an argument of `load_idt`.
pub data Handler : Type 0 where
  timer_tick_handler master slave general_protection_handler page_fault_handler sys_call_handler
        keyboard_handler mouse_handler :
      Handler

unfoldable pub load_idt : (Handler → ℕ) → Idt → Idt
load_idt address idt =
    let timer = set_idt_entry (address timer_tick_handler) 0x20 idt in
    let low = set_idt_entry (address master) 0x27 (
      set_idt_entry (address master) 0x26 (
        set_idt_entry (address master) 0x25
          (set_idt_entry (address master) 0x24 (set_idt_entry (address master) 0x23 timer)))) in
    let high = set_idt_entry (address master) 0x2E (
      set_idt_entry (address master) 0x2D (
        set_idt_entry (address master) 0x2B (
          set_idt_entry (address master) 0x2A
            (set_idt_entry (address slave) 0x29 (set_idt_entry (address slave) 0x28 low))))) in
    let faults =
      set_idt_entry (address page_fault_handler) 0x0E
        (set_idt_entry (address general_protection_handler) 0x0D high) in
    set_idt_entry (address mouse_handler) 0x2C (
      set_idt_entry (address keyboard_handler) 0x21
        (set_idt_entry (address sys_call_handler) 0x80 faults))
