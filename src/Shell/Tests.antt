-- ===== src/Shell/Tests.antt =====
-- Lines that are typed at the shell.
use sistemas_operativos.Base.{
  ℕ, ◌+◌, ◌-◌, ◌^◌, ◌≡◌, refl, arith, List, [], ◌∷◌, ◌++◌, length, false, ◌==◌, if◌then◌else◌,
}
use sistemas_operativos.Text.{strcmp, strcmp_n}
use sistemas_operativos.Printing.{newline, buffersize}
use sistemas_operativos.Shell.{
  codes, prompt, change_to_shell_environment, parser, sync_parser, async_parser, putchar, prints,
  is_word, round, sys_call,
}
use sistemas_operativos.Shell.Background.{Agree, async_parser-sync_parser}
use sistemas_operativos.Shell.Words.{kill_digit, sync_parser_stale}
use sistemas_operativos.Shell.Rounds.{round_line}

abbrev listing : List ℕ
listing = codes "ls" ++ 0 ∷ codes "p"

async_parser-sync_parser_example : Agree listing (async_parser listing) (sync_parser listing)
async_parser-sync_parser_example = async_parser-sync_parser listing

-- `kill12` and `kill 2`.
kill_digit_example :
    (parser (codes "kill" ++ (b'0' + 1) ∷ codes "2") ≡ sys_call 11 1 0 ∷ [])
    × (parser (codes "kill" ++ 32 ∷ codes "2") ≡ sys_call 11 (2 ^ 64 - 16) 0 ∷ [])
kill_digit_example = kill_digit 1 (codes "2") (omega arith)

editor_other :
    (is_word "echo" (codes "./editor" ++ 0 ∷ []) ≡ false)
    × (is_word "man" (codes "./editor" ++ 0 ∷ []) ≡ false)
unfolding strcmp
editor_other = (refl, refl)

sync_parser_stale_example :
    sync_parser (codes "./editor" ++ 0 ∷ codes "phers") ≡ sync_parser (codes "./editor" ++ 0 ∷ [])
sync_parser_stale_example =
    sync_parser_stale (codes "./editor") (codes "phers") [] (omega arith) (editor_other.0)
      (editor_other.1)

-- The word alone is followed by what an earlier line has left there.
echo_alone :
    (sync_parser (codes "echo" ++ 0 ∷ codes "on" ++ 0 ∷ []) ≡ sys_call 6 1 0 ∷ [])
    × (sync_parser (codes "echo" ++ 0 ∷ codes "off" ++ 0 ∷ []) ≡ sys_call 6 0 0 ∷ [])
unfolding sync_parser strcmp_n strcmp
echo_alone = (refl, refl)

round_line_example :
    round [] false (codes "ls" ++ newline ∷ [])
    ≡ prompt
      ++ (if length (codes "ls") == buffersize
          then putchar 10 ∷ prints (codes "ScanFF Buffer OverFlow") ∷ []
          else change_to_shell_environment ++ parser (codes "ls" ++ 0 ∷ []))
round_line_example = round_line (codes "ls") [] [] false (omega arith) (omega arith)
