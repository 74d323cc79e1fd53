-- ===== src/Editor.antt =====
-- Userland/EDITOR/editor.c: characters are read one by one, and a line behind `%` is a command. What
-- is typed is a list of characters other than 0, and `scanFF` is that of Kernel/stdio.c.
pub mod Tests
use sistemas_operativos.Base.{
  ℕ, zero, suc, ◌+◌, ◌-◌, ◌<◌, ◌≤◌, ◌≡◌, ◌≢◌, refl, ap, ◌∙◌, arith, List, [], ◌∷◌, ◌++◌,
  append_assoc, length, length-append, Bool, true, false, if◌then◌else◌, ◌==◌, ==_ne, ltb, none,
}
use sistemas_operativos.Text.{strcmp}
use sistemas_operativos.Printing.{Scanned, scanned, waits, hangs, reads_beyond, scan_ff, newline}
use sistemas_operativos.Printing.Lines.{Plain, scan_ff-line}
use sistemas_operativos.Shell.{Act, sys_call, prints, codes}

-- What becomes of the loop: it waits for more, ends with what is typed behind, or stores a line that
-- does not fit into the 30 characters of `sos`.
pub data Edited : Type 0 where
  unfinished overruns : Edited
  left : List ℕ → Edited

-- The fuel is for the characters that are read; as many rounds as characters are enough.
pub edit : ℕ → List ℕ → Edited
unfolding scan_ff
edit zero input = unfinished
edit (suc n) [] = unfinished
edit (suc n) (c ∷ input) =
    let rest = edit n input in
    let command : Edited = elim (scan_ff (codes "%s") true none false input) [
      | scanned [] full out input' ↦ unfinished
      | scanned (sos ∷ more) full out input' ↦
          let further = edit n input' in
          if ltb 29 (length sos)
          then overruns
          else if strcmp sos (codes "exit") == 0
          then left input'
          else further
      | waits ↦ unfinished
      | hangs ↦ unfinished
      | reads_beyond ↦ unfinished
    ] in
    if c == b'%' then command else rest

abbrev pub clear_editor : List Act
clear_editor = sys_call 5 0 0 ∷ []

abbrev pub closing : Edited → List Act
closing (left input) = clear_editor ++ sys_call 7 4 0 ∷ []
closing other = []

-- What `main` asks for.
unfoldable pub editor : List ℕ → List Act
unfolding edit
editor input = clear_editor ++ prints (codes "chomp\n") ∷ closing (edit (length input) input)

-- No character is `%`.
abbrev pub IsProse : List ℕ → Type 0
IsProse [] = Unit
IsProse (c ∷ prose) = (c ≢ b'%') × IsProse prose

-- A line behind `%` that fits.
edit_command :
    (n : ℕ) (s input : List ℕ)
    → Plain s
    → length s < 30
    → edit (suc n) (b'%' ∷ s ++ newline ∷ input)
      ≡ (if strcmp s (codes "exit") == 0 then left input else edit n input)
unfolding edit
edit_command n s input plain fits =
    let small : ltb 29 (length s) ≡ false = ground arith in
    rw (scan_ff-line s input false none plain (omega arith), small) refl

edit_prose :
    (n : ℕ) (prose input : List ℕ)
    → IsProse prose
    → edit (length prose + n) (prose ++ input) ≡ edit n input
unfolding edit
edit_prose n [] input h = ap (λ k. edit k input) (omega arith)
edit_prose n (c ∷ prose) input h =
    let e : length (c ∷ prose) + n ≡ suc (length prose + n) = omega arith in
    let other : (c == b'%') ≡ false = ==_ne c b'%' (h.0) in
    rw (e, other) (edit_prose n prose input (h.1))

-- Prose and commands in turn, and what is typed behind them.
abbrev pub session : List (List ℕ × List ℕ) → List ℕ → List ℕ
session [] end_ = end_
session ((prose, s) ∷ commands) end_ = prose ++ b'%' ∷ (s ++ newline ∷ session commands end_)

-- Every command fits, and none is `exit`.
abbrev pub IsSession : List (List ℕ × List ℕ) → Type 0
IsSession [] = Unit
IsSession ((prose, s) ∷ commands) =
    IsProse prose
    × Plain s
    × (length s < 30)
    × ((strcmp s (codes "exit") == 0) ≡ false)
    × IsSession commands

-- Prose and one command, with fuel for both.
edit_step :
    (n : ℕ) (prose s input : List ℕ)
    → IsProse prose
    → Plain s
    → length s < 30
    → length (prose ++ b'%' ∷ (s ++ newline ∷ input)) ≤ n
    → (m : ℕ) × (length input ≤ m)
      × (edit n (prose ++ b'%' ∷ (s ++ newline ∷ input))
          ≡ (if strcmp s (codes "exit") == 0 then left input else edit m input))
edit_step n prose s input h plain fits le =
    let m : ℕ = n - length prose - 1 in
    let whole = length-append prose (b'%' ∷ (s ++ newline ∷ input)) in
    let command = length-append s (newline ∷ input) in
    let e : n ≡ length prose + suc m = omega (arith, le, whole, command) in
    (
      m,
      omega (arith, le, whole, command),
      ap (λ k. edit k (prose ++ b'%' ∷ (s ++ newline ∷ input))) e
          ∙ edit_prose (suc m) prose (b'%' ∷ (s ++ newline ∷ input)) h
          ∙ edit_command m s input plain fits,
    )

-- The editor ends at the first `%exit`, whatever prose and other commands are typed before it, and
-- leaves what is typed behind it to the shell that it starts.
edit_exits :
    (commands : List (List ℕ × List ℕ)) (prose input : List ℕ) (n : ℕ)
    → IsSession commands
    → IsProse prose
    → length (session commands (prose ++ b'%' ∷ (codes "exit" ++ newline ∷ input))) ≤ n
    → edit n (session commands (prose ++ b'%' ∷ (codes "exit" ++ newline ∷ input))) ≡ left input
unfolding strcmp
edit_exits [] prose input n h k le =
    let v = edit_step n prose (codes "exit") input k (omega arith) (omega arith) le in v.2
edit_exits ((before, s) ∷ commands) prose input n h k le =
    let end_ : List ℕ = session commands (prose ++ b'%' ∷ (codes "exit" ++ newline ∷ input)) in
    let v = edit_step n before s end_ h.0 h.1 h.2 le in
    v.2 ∙ rw (h.3) (edit_exits commands prose input (v.0) h.4 k (v.1))
