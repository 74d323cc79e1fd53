-- ===== src/Clock/Tests.antt =====
-- Eight minutes and five seconds past nine at night.
use sistemas_operativos.Base.{◌≡◌, refl, [], ◌∷◌}
use sistemas_operativos.Memory.{Bytes, int_to_string}
use sistemas_operativos.Clock.{get_time, bytes_from}

abbrev empty_memory : Bytes
empty_memory a = 0

clock_text :
    bytes_from (get_time 0x21 0x08 0x05 100 empty_memory) 100 0 9
    ≡ b'2' ∷ b'1' ∷ b':' ∷ b'0' ∷ b'8' ∷ b':' ∷ b'0' ∷ b'5' ∷ 0 ∷ []
unfolding get_time int_to_string
clock_text = refl
