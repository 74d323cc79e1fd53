-- ===== src/Memory/Tests.antt =====
-- Copies between small areas, and the theorems there.
use sistemas_operativos.Base.{◌≡◌, refl}
use sistemas_operativos.Memory.{Bytes, memcpy}

-- Every address holds itself.
abbrev memory : Bytes
memory a = a

overlap : memcpy 4 2 4 memory 6 ≡ 2
unfolding memcpy
overlap = refl
