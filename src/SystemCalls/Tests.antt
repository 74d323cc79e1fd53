-- ===== src/SystemCalls/Tests.antt =====
-- A text on the screen, and the theorems there.
use sistemas_operativos.Base.{neg, refl, ◌≡◌, arith, [], ◌∷◌, some}
use sistemas_operativos.Screen.{Screen, width}
use sistemas_operativos.Screen.Cursor.{position, IsInside}
use sistemas_operativos.Screen.Tests.{screen}
use sistemas_operativos.SystemCalls.{sys_call_write, newline}
use sistemas_operativos.SystemCalls.Services.{to_qword, handled, wait}
use sistemas_operativos.SystemCalls.Programs.{answer, handled-asked}
use sistemas_operativos.SystemCalls.Write.{sys_call_write-IsInside}

sys_call_write-IsInside_example :
    (s' : Screen) × (sys_call_write width 0 (b'o' ∷ newline ∷ b'k' ∷ []) screen ≡ some s')
    × IsInside (position s')
sys_call_write-IsInside_example =
    sys_call_write-IsInside (b'o' ∷ newline ∷ b'k' ∷ []) screen (record {
      right_of = omega arith;
      in_row = omega arith;
      below = omega arith;
      in_column = omega arith;
    })

-- The semaphore -1, which `semOpen` gives for an unknown name.
handled-asked_example : handled (25, to_qword (neg 1), 0, 0) ≡ some (answer (wait (neg 1)))
handled-asked_example = handled-asked (wait (neg 1)) (25, to_qword (neg 1), 0, 0) refl (omega arith)
