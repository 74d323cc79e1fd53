-- ===== src/Shell.antt =====
-- Userland/SHELL/shell.c: what the shell does with a line. A buffer is the list of its characters
-- with the 0 behind the text and what lies there from earlier lines. `printFF` and `scanFF` of
-- Userland/SHELL/stdio.c are those of Kernel/stdio.c.
pub mod Background
pub mod Words
pub mod Rounds
pub mod Tests
use Prim.Native.Char.{code}
use Prim.Native.String.{String}
use sistemas_operativos.Base.{
  ℕ, zero, suc, ◌+◌, ◌-◌, ◌^◌, List, [], ◌∷◌, ◌++◌, Bool, true, false, ◌&&◌, if◌then◌else◌, ◌==◌,
  ltb, drop, get_or, none,
}
use sistemas_operativos.Text.{strcmp, strcmp_n}
use sistemas_operativos.Printing.{Scanned, scanned, waits, hangs, reads_beyond, scan_ff}

-- The characters of a literal.
abbrev pub codes : String → List ℕ
codes String.[] = []
codes (String.◌∷◌ c s) = code c ∷ codes s

-- The functions that are started as threads.
pub data Job : Type 0 where
  help_shell clear_shell print_processes echo_shell_on echo_shell_off while1 ls : Job
  kill_process : ℕ → Job
  man : List ℕ → Job

-- What the shell asks for: a system call with its number and arguments, a text for `printFF` with
-- "%s", a character for `putchar`, a thread; or it loops for ever.
pub data Act : Type 0 where
  sys_call : ℕ → ℕ → ℕ → Act
  prints : List ℕ → Act
  putchar : ℕ → Act
  starts : Job → Act
  loops : Act

-- The text at the start of a buffer.
abbrev pub text : List ℕ → List ℕ
text [] = []
text (c ∷ buffer) = if c == 0 then [] else c ∷ text buffer

-- `char` as a number of 64 bits, less '0'.
abbrev pub from_digit : ℕ → ℕ
from_digit c =
    if ltb c 128 then (if ltb c 48 then c + 2 ^ 64 - 48 else c - 48) else c + 2 ^ 64 - 304

abbrev pub line : List ℕ → List Act
line s = prints s ∷ putchar 10 ∷ []

abbrev pub man_text : List ℕ → List ℕ
man_text buffer =
    if strcmp (codes "help") (text buffer) == 0
    then codes "HELP\n use this comand to see all the comands"
    else if strcmp (codes "clear") (text buffer) == 0
    then codes "CLEAR\n clear the video use by the shell"
    else if strcmp (codes "echo") (text buffer) == 0
    then codes "ECHO\n Use \"echo on\" to turn on the echo and \"echo off\" to turn it off  "
    else if strcmp (codes "ls") (text buffer) == 0
    then codes "LS\n display all programs"
    else if strcmp (codes "ps") (text buffer) == 0
    then codes "ps\n list all current processes"
    else if strcmp (codes "&") (text buffer) == 0
    then codes "&\n run a command in background. Use: &command"
    else if strcmp (codes "./") (text buffer) == 0
    then codes "./\n run a program. Use: ./programName"
    else codes "invalid command for man"

-- The body of each of the functions.
abbrev pub perform : Job → List Act
perform help_shell = line (
    codes
      "Help\n the commands are clear, help, echo, ls , ps, & and man\n write man \"comand\" for more information")
perform clear_shell = sys_call 5 0 0 ∷ []
perform print_processes = sys_call 10 0 0 ∷ []
perform echo_shell_on = sys_call 6 1 0 ∷ []
perform echo_shell_off = sys_call 6 0 0 ∷ []
perform while1 = loops ∷ []
perform ls = line (codes "Programs: prodCons, philosophers, pipetest, editor, shell, fortune")
perform (kill_process pid) = sys_call 11 pid 0 ∷ []
perform (man buffer) = line (man_text buffer)

abbrev pub complaint : List ℕ → List ℕ → List Act
complaint buffer error = prints (text buffer) ∷ putchar b':' ∷ putchar 32 ∷ line error

abbrev pub run_error : List ℕ → List Act
run_error buffer = complaint buffer (codes "is not a valid program")

abbrev pub error : List ℕ → List Act
error buffer = complaint buffer (codes "command not found")

abbrev pub async_error : List ℕ → List Act
async_error buffer = complaint buffer (codes "is not a valid comand for &")

abbrev pub run_program : List ℕ → List Act
run_program c =
    if strcmp (codes "prodCons") (text c) == 0
    then sys_call 7 1 1 ∷ []
    else if strcmp (codes "pipeTest") (text c) == 0
    then sys_call 7 1 2 ∷ []
    else if strcmp (codes "philosophers") (text c) == 0
    then sys_call 7 1 4 ∷ []
    else if strcmp (codes "editor") (text c) == 0
    then sys_call 7 2 0 ∷ []
    else if strcmp (codes "fortune") (text c) == 0
    then sys_call 7 3 0 ∷ []
    else if strcmp (codes "pagefault") (text c) == 0
    then sys_call 7 5 0 ∷ []
    else run_error c

unfoldable pub run : List ℕ → List Act
run c = run_program c ++ perform echo_shell_on

-- The tests that `parser` and `asyncParser` make.
abbrev pub is_word : String → List ℕ → Bool
is_word word buffer = strcmp (codes word) (text buffer) == 0

abbrev pub begins : String → ℕ → List ℕ → Bool
begins word n buffer = strcmp_n (codes word) (text buffer) n == 0

abbrev pub echo_job : List ℕ → Job
echo_job buffer =
    if strcmp (codes "on") (text (drop 5 buffer)) == 0 then echo_shell_on else echo_shell_off

abbrev pub kill_job : List ℕ → Job
kill_job buffer = kill_process (from_digit (get_or buffer 4 0))

-- The branch of `parser` without `&`.
unfoldable pub sync_parser : List ℕ → List Act
unfolding run
sync_parser buffer =
    if is_word "help" buffer
    then perform help_shell
    else if is_word "clear" buffer
    then perform clear_shell
    else if is_word "ps" buffer
    then perform print_processes
    else if begins "echo" 4 buffer
    then perform (echo_job buffer)
    else if begins "kill" 4 buffer
    then perform (kill_job buffer)
    else if (get_or buffer 0 0 == b'.') && (get_or buffer 1 0 == b'/')
    then run (drop 2 buffer)
    else if begins "man" 3 buffer
    then perform (man (drop 4 buffer))
    else if is_word "while1" buffer
    then perform while1
    else if is_word "ls" buffer
    then perform ls
    else if get_or buffer 0 0 == 10
    then []
    else error buffer

unfoldable pub async_parser : List ℕ → List Act
unfolding run
async_parser buffer =
    if is_word "help" buffer
    then starts help_shell ∷ []
    else if is_word "clear" buffer
    then starts clear_shell ∷ []
    else if is_word "ps" buffer
    then starts print_processes ∷ []
    else if begins "echo" 4 buffer
    then starts (echo_job buffer) ∷ []
    else if begins "kill" 4 buffer
    then starts (kill_job buffer) ∷ []
    else if (get_or buffer 0 0 == b'.') && (get_or buffer 1 0 == b'/')
    then run (drop 2 buffer)
    else if begins "man" 3 buffer
    then starts (man (drop 4 buffer)) ∷ []
    else if is_word "ls" buffer
    then starts ls ∷ []
    else if is_word "while1" buffer
    then starts while1 ∷ []
    else if get_or buffer 0 0 == 10
    then []
    else async_error buffer

-- The variable `isAsynchronicCall`, which nothing reads, is left out.
unfoldable pub parser : List ℕ → List Act
unfolding sync_parser async_parser
parser buffer =
    if get_or buffer 0 0 == b'&' then async_parser (drop 1 buffer) else sync_parser buffer

abbrev pub change_to_shell_environment : List Act
change_to_shell_environment = sys_call 8 0 4 ∷ []

abbrev pub change_to_user_environment : List Act
change_to_user_environment = sys_call 8 6 4 ∷ sys_call 9 7 0 ∷ []

abbrev pub prompt : List Act
prompt =
    putchar 10 ∷ change_to_shell_environment ++ prints (codes "shell>") ∷ change_to_user_environment

-- What comes behind the prompt in a round of `main`; `stale` lies behind the text in the buffer.
abbrev pub answer : List ℕ → Scanned → List Act
answer stale (scanned (s ∷ []) full out input) =
    if full
    then putchar 10 ∷ prints (codes "ScanFF Buffer OverFlow") ∷ []
    else change_to_shell_environment ++ parser (s ++ 0 ∷ stale)
answer stale other = loops ∷ []

-- A round of the loop of `main` on what is typed.
unfoldable pub round : List ℕ → Bool → List ℕ → List Act
unfolding scan_ff parser
round stale before typed = prompt ++ answer stale (scan_ff (codes "%s") true none before typed)
