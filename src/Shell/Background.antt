-- ===== src/Shell/Background.antt =====
-- Userland/SHELL/shell.c: `asyncParser` beside the branch of `parser` without `&`.
use sistemas_operativos.Base.{
  ℕ, ◌≡◌, ◌≢◌, ◌⊎◌, inl, inr, refl, arith, List, [], ◌∷◌, ◌++◌, Bool, true, false, if◌then◌else◌,
  ◌==◌, Bool-cases, get_or, drop, append-nil, ◌&&◌,
}
use sistemas_operativos.Text.{strcmp, signed_rank}
use sistemas_operativos.Shell.{
  codes, Job, help_shell, clear_shell, print_processes, Act, sys_call, prints, putchar, starts,
  loops, text, perform, ls, while1, run, is_word, begins, echo_job, kill_job, error, async_error,
  sync_parser, async_parser, man,
}

-- What is done once every thread that was asked for has run by itself.
abbrev pub performed : List Act → List Act
performed [] = []
performed (starts job ∷ acts) = perform job ++ performed acts
performed (sys_call n a b ∷ acts) = sys_call n a b ∷ performed acts
performed (prints s ∷ acts) = prints s ∷ performed acts
performed (putchar c ∷ acts) = putchar c ∷ performed acts
performed (loops ∷ acts) = loops ∷ performed acts

-- The first comes to the second, or both are the complaints about the buffer.
abbrev pub Agree : List ℕ → List Act → List Act → Type 0
Agree buffer later now =
    (performed later ≡ now) ⊎ ((later ≡ async_error buffer) × (now ≡ error buffer))

if-Agree :
    (buffer : List ℕ) (b : Bool) (x y x' y' : List Act)
    → Agree buffer x y
    → Agree buffer x' y'
    → Agree buffer (if b then x else x') (if b then y else y')
if-Agree buffer true x y x' y' h k = h
if-Agree buffer false x y x' y' h k = k

-- A thread in the place of a call.
starts-Agree :
    (buffer : List ℕ) (b : Bool) (job : Job) (x y : List Act)
    → Agree buffer x y
    → Agree buffer (if b then starts job ∷ [] else x) (if b then perform job else y)
starts-Agree buffer b job x y h =
    if-Agree buffer b (starts job ∷ []) (perform job) x y (inl (append-nil (perform job))) h

-- No text is equal to two words that begin differently.
strcmp_first :
    (c d : ℕ) (cs ds s : List ℕ)
    → signed_rank c ≢ signed_rank d
    → strcmp (c ∷ cs) s ≡ 0
    → (strcmp (d ∷ ds) s == 0) ≡ false
unfolding strcmp
strcmp_first c d cs ds [] ne e = absurd (omega (arith, e))
strcmp_first c d cs ds (x ∷ s) ne e = ground arith

-- The tests for "ls" and "while1" may be made in either order.
ls-Agree :
    (buffer : List ℕ) (x y : List Act)
    → Agree buffer x y
    → Agree buffer
        (if is_word "ls" buffer
          then starts ls ∷ []
          else if is_word "while1" buffer
          then starts while1 ∷ []
          else x)
        (if is_word "while1" buffer
          then perform while1
          else if is_word "ls" buffer
          then perform ls
          else y)
ls-Agree buffer x y h = elim (Bool-cases (is_word "ls" buffer)) [
  | inl same ↦
      let equal : strcmp (codes "ls") (text buffer) ≡ 0 = ground arith in
      let no : is_word "while1" buffer ≡ false =
        strcmp_first b'l' b'w' (codes "s") (codes "hile1") (text buffer) (omega arith) equal in
      rw (same, no) (inl refl)
  | inr other ↦ rw other (
      if-Agree buffer (is_word "while1" buffer) (starts while1 ∷ []) (perform while1) x y (inl refl)
        h)
]

-- A program is started in the same way.
performed-run : (c : List ℕ) → performed (run c) ≡ run c
unfolding run
performed-run c = ground arith

-- A command behind `&` does, once the thread that it starts has run, what the command does by
-- itself, whatever the buffer holds; or neither is known and both complain, each in its words. The
-- two functions test for "ls" and "while1" in different orders.
pub async_parser-sync_parser :
    (buffer : List ℕ) → Agree buffer (async_parser buffer) (sync_parser buffer)
unfolding async_parser sync_parser
async_parser-sync_parser buffer = starts-Agree buffer (is_word "help" buffer) help_shell _ _ (
    starts-Agree buffer (is_word "clear" buffer) clear_shell _ _ (
      starts-Agree buffer (is_word "ps" buffer) print_processes _ _ (
        starts-Agree buffer (begins "echo" 4 buffer) (echo_job buffer) _ _ (
          starts-Agree buffer (begins "kill" 4 buffer) (kill_job buffer) _ _ (
            if-Agree buffer ((get_or buffer 0 0 == b'.') && (get_or buffer 1 0 == b'/')) _ _ _ _
              (inl (performed-run (drop 2 buffer)))
              (starts-Agree buffer (begins "man" 3 buffer) (man (drop 4 buffer)) _ _ (
                ls-Agree buffer _ _ (
                  if-Agree buffer (get_or buffer 0 0 == 10) [] [] _ _ (inl refl)
                    (inr (refl, refl))))))))))
