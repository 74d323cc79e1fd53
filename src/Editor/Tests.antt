-- ===== src/Editor/Tests.antt =====
-- A command goes to the end of its line, so that the `%exit` here belongs to another one.
use sistemas_operativos.Base.{◌≡◌, refl, [], ◌∷◌, ◌++◌}
use sistemas_operativos.Text.{strcmp}
use sistemas_operativos.Printing.{scan_ff}
use sistemas_operativos.Shell.{sys_call, prints, codes}
use sistemas_operativos.Editor.{editor}

exit_in_command :
    editor (codes "dear %all, %exit" ++ 10 ∷ []) ≡ sys_call 5 0 0 ∷ prints (codes "chomp\n") ∷ []
unfolding editor strcmp scan_ff
exit_in_command = refl
