-- ===== src/Shell/Rounds.antt =====
-- Userland/SHELL/shell.c, `main`, on Userland/SHELL/stdio.c, `scanFF`: a line typed at the prompt.
use sistemas_operativos.Base.{
  ℕ, ◌≤◌, ◌≡◌, ap, List, [], ◌∷◌, ◌++◌, length, Bool, ◌==◌, none, if◌then◌else◌,
}
use sistemas_operativos.Printing.{newline, buffersize}
use sistemas_operativos.Printing.Lines.{Plain, scan_ff-line}
use sistemas_operativos.Shell.{
  codes, prompt, change_to_shell_environment, parser, putchar, prints, round, answer,
}

-- A line of fewer than 100 characters without a backspace is parsed as it is typed, behind the
-- prompt and in the environment of the shell, whatever the buffer held before and whatever is typed
-- behind it; a line of 100 characters is only answered by the message of an overflow.
pub round_line :
    (s rest stale : List ℕ) (before : Bool)
    → Plain s
    → length s ≤ buffersize
    → round stale before (s ++ newline ∷ rest)
      ≡ prompt
        ++ (if length s == buffersize
            then putchar 10 ∷ prints (codes "ScanFF Buffer OverFlow") ∷ []
            else change_to_shell_environment ++ parser (s ++ 0 ∷ stale))
unfolding round
round_line s rest stale before plain le =
    ap (λ r. prompt ++ answer stale r) (scan_ff-line s rest before none plain le)
