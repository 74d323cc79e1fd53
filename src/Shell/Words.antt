-- ===== src/Shell/Words.antt =====
-- Userland/SHELL/shell.c: which words the shell knows, and what it reads of the buffer.
use Prim.Native.String.{String}
use sistemas_operativos.Base.{
  ℕ, zero, suc, ◌+◌, ◌-◌, ◌^◌, ◌≡◌, ◌≤◌, ◌<◌, refl, arith, ap, sym, ◌∙◌, List, [], ◌∷◌, ◌++◌,
  length, Bool, true, false, if◌then◌else◌, ◌==◌, get_or, drop, ◌&&◌, ltb, dec_lt,
}
use sistemas_operativos.Text.{strcmp, strcmp_n}
use sistemas_operativos.Text.Order.{IsText}
use sistemas_operativos.Shell.{
  codes, sys_call, text, is_word, begins, sync_parser, parser, perform, echo_shell_on,
  echo_shell_off, kill_process, from_digit, prints, putchar, line, run, man,
}

-- The text at the start of a buffer is what was put there.
text-append : (w stale : List ℕ) → IsText w → text (w ++ 0 ∷ stale) ≡ w
text-append [] stale h = refl
text-append (c ∷ w) stale h =
    let ne : (c == 0) ≡ false = ground arith in rw ne (ap (◌∷◌ c) (text-append w stale (h.2)))

text-drop :
    (n : ℕ) (w stale : List ℕ) → IsText w → n ≤ length w → text (drop n (w ++ 0 ∷ stale)) ≡ drop n w
text-drop zero w stale h le = text-append w stale h
text-drop (suc n) [] stale h le = absurd (omega (arith, le))
text-drop (suc n) (c ∷ w) stale h le = text-drop n w stale (h.2) (omega (arith, le))

-- `kill` reads one character, the one right behind the word: a digit there is the process that is
-- asked to be killed, whatever digits follow; with a space there it is process -16, whatever follows.
pub kill_digit :
    (d : ℕ) (rest : List ℕ)
    → d < 10
    → (parser (codes "kill" ++ (b'0' + d) ∷ rest) ≡ sys_call 11 d 0 ∷ [])
      × (parser (codes "kill" ++ 32 ∷ rest) ≡ sys_call 11 (2 ^ 64 - 16) 0 ∷ [])
unfolding parser sync_parser strcmp strcmp_n
kill_digit d rest lt =
    let small : ltb (b'0' + d) 128 ≡ true = ground arith in
    let up : ltb (b'0' + d) b'0' ≡ false = ground arith in
    let e : b'0' + d - b'0' ≡ d = omega arith in (rw (small, up, e) refl, refl)

-- A word that agrees with another one on its first characters has as many.
strcmp_n-length : (ds s : List ℕ) → (strcmp_n ds s (length ds) == 0) ≡ true → length ds ≤ length s
unfolding strcmp_n
strcmp_n-length [] s e = omega arith
strcmp_n-length (d ∷ ds) [] e = absurd (ground arith)
strcmp_n-length (d ∷ ds) (c ∷ s) e = ground (arith, strcmp_n-length ds s)

-- A text that is as long as a word and agrees with it is the word.
strcmp_n-strcmp : (ds s : List ℕ) → length ds ≡ length s → strcmp_n ds s (length ds) ≡ strcmp ds s
unfolding strcmp_n strcmp
strcmp_n-strcmp [] [] e = refl
strcmp_n-strcmp [] (c ∷ s) e = absurd (omega (arith, e))
strcmp_n-strcmp (d ∷ ds) [] e = absurd (omega (arith, e))
strcmp_n-strcmp (d ∷ ds) (c ∷ s) e = ground (arith, strcmp_n-strcmp ds s)

-- Behind a word that is not the whole text there is a character.
begins_more :
    (word : String) (buffer : List ℕ)
    → begins word (length (codes word)) buffer ≡ true
    → is_word word buffer ≡ false
    → length (codes word) < length (text buffer)
begins_more word buffer e ne =
    let le = strcmp_n-length (codes word) (text buffer) e in
    elim (dec_lt (length (codes word)) (length (text buffer))) [
      | yes lt ↦ lt
      | no over ↦
          let whole = strcmp_n-strcmp (codes word) (text buffer) (omega (arith, le, over)) in
          absurd (ground arith)
    ]

module _ {ℓ} {A : Type ℓ} where
  -- Equal tests and equal branches, where they are taken.
  if_both :
      (b c : Bool) (x x' y y' : A)
      → b ≡ c
      → (b ≡ true → x ≡ x')
      → (b ≡ false → y ≡ y')
      → (if b then x else y) ≡ (if c then x' else y')
  if_both true true x x' y y' e yes' no' = yes' refl
  if_both false false x x' y y' e yes' no' = no' refl
  if_both true false x x' y y' e yes' no' = cc
  if_both false true x x' y y' e yes' no' = cc

-- A program and a manual page are named by a text.
run-text : (b c : List ℕ) → text b ≡ text c → run b ≡ run c
unfolding run
run-text b c same = rw same refl

man-text : (b c : List ℕ) → text b ≡ text c → perform (man b) ≡ perform (man c)
man-text b c same = rw same refl

abbrev names_program : List ℕ → Bool
names_program buffer = (get_or buffer 0 0 == b'.') && (get_or buffer 1 0 == b'/')

names_program_stale : (w s t : List ℕ) → names_program (w ++ 0 ∷ s) ≡ names_program (w ++ 0 ∷ t)
names_program_stale [] s t = refl
names_program_stale (c ∷ []) s t = refl
names_program_stale (c ∷ d ∷ w) s t = refl

names_program-length : (w s : List ℕ) → names_program (w ++ 0 ∷ s) ≡ true → 2 ≤ length w
names_program-length [] s e = absurd (ground arith)
names_program-length (c ∷ []) s e = absurd (ground arith)
names_program-length (c ∷ d ∷ w) s e = omega arith

first_stale : (w s t : List ℕ) → get_or (w ++ 0 ∷ s) 0 0 ≡ get_or (w ++ 0 ∷ t) 0 0
first_stale [] s t = refl
first_stale (c ∷ w) s t = refl

fifth_stale : (w s t : List ℕ) → 4 ≤ length w → get_or (w ++ 0 ∷ s) 4 0 ≡ get_or (w ++ 0 ∷ t) 4 0
fifth_stale (a ∷ b ∷ c ∷ d ∷ w) s t le = first_stale w s t
fifth_stale [] s t le = absurd (omega (arith, le))
fifth_stale (a ∷ []) s t le = absurd (omega (arith, le))
fifth_stale (a ∷ b ∷ []) s t le = absurd (omega (arith, le))
fifth_stale (a ∷ b ∷ c ∷ []) s t le = absurd (omega (arith, le))

-- What lies behind the text in the buffer from earlier lines does not change what a command does,
-- unless the command is the word `echo` or the word `man` alone.
pub sync_parser_stale :
    (w s t : List ℕ)
    → IsText w
    → is_word "echo" (w ++ 0 ∷ []) ≡ false
    → is_word "man" (w ++ 0 ∷ []) ≡ false
    → sync_parser (w ++ 0 ∷ s) ≡ sync_parser (w ++ 0 ∷ t)
unfolding sync_parser
sync_parser_stale w s t h no_echo no_man =
    let there : text (w ++ 0 ∷ s) ≡ w = text-append w s h in
    let same : text (w ++ 0 ∷ s) ≡ text (w ++ 0 ∷ t) = there ∙ sym (text-append w t h) in
    let bare : text (w ++ 0 ∷ []) ≡ w = text-append w [] h in
    let word : (v : String) → is_word v (w ++ 0 ∷ s) ≡ is_word v (w ++ 0 ∷ t) =
      λ v. ap (λ x. strcmp (codes v) x == 0) same in
    let start : (v : String) (n : ℕ) → begins v n (w ++ 0 ∷ s) ≡ begins v n (w ++ 0 ∷ t) =
      λ v n. ap (λ x. strcmp_n (codes v) x n == 0) same in
    let measure : (n : ℕ) → n ≤ length (text (w ++ 0 ∷ s)) → n ≤ length w =
      λ n le. omega (arith, le, ap length there) in
    let argument : (n : ℕ)
        → n ≤ length (text (w ++ 0 ∷ s))
        → text (drop n (w ++ 0 ∷ s)) ≡ text (drop n (w ++ 0 ∷ t)) =
      λ n le. text-drop n w s h (measure n le) ∙ sym (text-drop n w t h (measure n le)) in
    let not_echo : is_word "echo" (w ++ 0 ∷ s) ≡ false =
      ap (λ x. strcmp (codes "echo") x == 0) (there ∙ sym bare) ∙ no_echo in
    let not_man : is_word "man" (w ++ 0 ∷ s) ≡ false =
      ap (λ x. strcmp (codes "man") x == 0) (there ∙ sym bare) ∙ no_man in
    if_both _ _ _ _ _ _ (word "help") (λ _. refl)
      (λ _.
        if_both _ _ _ _ _ _ (word "clear") (λ _. refl)
          (λ _.
            if_both _ _ _ _ _ _ (word "ps") (λ _. refl)
              (λ _.
                if_both _ _ _ _ _ _ (start "echo" 4)
                  (λ e.
                    ap
                      (λ x.
                        perform
                          (if strcmp (codes "on") x == 0 then echo_shell_on else echo_shell_off))
                      (argument 5 (begins_more "echo" (w ++ 0 ∷ s) e not_echo)))
                  (λ _.
                    if_both _ _ _ _ _ _ (start "kill" 4)
                      (λ e.
                        ap (λ x. perform (kill_process (from_digit x)))
                          (fifth_stale w s t
                            (measure 4 (strcmp_n-length (codes "kill") (text (w ++ 0 ∷ s)) e))))
                      (λ _.
                        if_both _ _ _ _ _ _ (names_program_stale w s t)
                          (λ e. run-text (drop 2 (w ++ 0 ∷ s)) (drop 2 (w ++ 0 ∷ t)) (
                            argument 2
                              (omega (arith, names_program-length w s e, ap length there))))
                          (λ _.
                            if_both _ _ _ _ _ _ (start "man" 3)
                              (λ e.
                                man-text (drop 4 (w ++ 0 ∷ s)) (drop 4 (w ++ 0 ∷ t))
                                  (argument 4 (begins_more "man" (w ++ 0 ∷ s) e not_man)))
                              (λ _.
                                if_both _ _ _ _ _ _ (word "while1") (λ _. refl)
                                  (λ _.
                                    if_both _ _ _ _ _ _ (word "ls") (λ _. refl)
                                      (λ _.
                                        if_both _ _ _ _ _ _ (ap (λ c. c == 10) (first_stale w s t))
                                          (λ _. refl)
                                          (λ _.
                                            ap
                                              (λ x.
                                                prints x
                                                ∷ putchar b':'
                                                ∷ putchar 32
                                                ∷ line (codes "command not found"))
                                              same))))))))))
