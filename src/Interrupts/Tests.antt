-- ===== src/Interrupts/Tests.antt =====
-- Handlers that lie above 1 MB.
use sistemas_operativos.Base.{ℕ, ◌≡◌, refl}
use sistemas_operativos.Interrupts.{
  Idt, entry_for, Handler, timer_tick_handler, master, slave, general_protection_handler,
  page_fault_handler, sys_call_handler, keyboard_handler, mouse_handler, load_idt,
}
use sistemas_operativos.Interrupts.Gates.{target}

abbrev address : Handler → ℕ
address timer_tick_handler = 0x100100
address master = 0x100200
address slave = 0x100300
address general_protection_handler = 0x100400
address page_fault_handler = 0x100500
address sys_call_handler = 0x100600
address keyboard_handler = 0x100700
address mouse_handler = 0x100800

abbrev idt : Idt
idt n = entry_for 0

keyboard_found : target (load_idt address idt 0x21) ≡ address keyboard_handler
unfolding load_idt
keyboard_found = refl
