-- ===== src/Sleep/Tick.antt =====
-- Kernel/interrupts.c: what a tick of the timer does to the sleeping processes.
use mathlib.Core.Path.{subst}
use sistemas_operativos.Base.{
  ℕ, zero, suc, ◌+◌, ◌-◌, ◌<◌, ◌≡◌, ◌≢◌, ◌↔◌, ◌∙◌, sym, ap, ap₂, arith, Bool, true, false, Option,
  none, some, Bool-cases, inl, inr, if◌then◌else◌, ◌==◌, ltb, leb, add32, dec_lt, ==_self,
}
use sistemas_operativos.Sleep.{Timer, done_sleeping, count_tick, is_over, tick_loop, timer_tick}

-- A sleeping process: its pid, the ticks it has slept, and how many it wants.
pub record Sleeper : Type 0 where
  pub pid : ℕ
  pub slept : ℕ
  pub wanted : ℕ

abbrev pub sleeper : Timer → ℕ → Sleeper
sleeper t i = record { pid = t.sleep_pids i; slept = t.sleep_counter i; wanted = t.alarm_sleep i }

-- One tick older, unless that is what it wants.
abbrev pub aged : Sleeper → Option Sleeper
aged x = if add32 x.slept 1 == x.wanted then none else some (record x { slept = add32 x.slept 1 })

-- What becomes of entry `i` when the entries before `j` have been looked at.
abbrev kept : ℕ → Timer → ℕ → Option Sleeper
kept j t i = if ltb i j then some (sleeper t i) else aged (sleeper t i)

-- An entry below `n` becomes `x`.
abbrev IsKept : ℕ → ℕ → Timer → Sleeper → Type 0
IsKept n j t x = (i : ℕ) × (i < n) × (kept j t i ≡ some x)

abbrev pub after_over : ℕ → Timer → Timer
after_over j t = done_sleeping j (count_tick j t)

kept-moves_on :
    (j i : ℕ) (t : Timer)
    → is_over j (count_tick j t) ≡ false
    → kept (j + 1) (count_tick j t) i ≡ kept j t i
kept-moves_on j i t goes = elim (Bool-cases (j == i)) [
  | inl same ↦
      let e : j ≡ i = ground arith in
      let below : ltb i (j + 1) ≡ true = ground arith in
      let not_below : ltb i j ≡ false = ground arith in
      let young : (add32 (t.sleep_counter i) 1 == t.alarm_sleep i) ≡ false =
        rw (sym e) (sym (rw (==_self j)) ∙ goes) in
      rw (same, below, not_below, young, e)
  | inr other ↦ elim (dec_lt i j) [
    | yes lt ↦
        let below : ltb i (j + 1) ≡ true = ground arith in
        let before : ltb i j ≡ true = ground arith in rw (other, below, before)
    | no ge ↦
        let below : ltb i (j + 1) ≡ false = ground arith in
        let before : ltb i j ≡ false = ground arith in rw (other, below, before)
  ]
]

-- Where entry `i` of the shorter table comes from.
abbrev pub source : ℕ → ℕ → ℕ → ℕ
source last j i = if j == i then last else i

pub sleeper-over :
    (j i : ℕ) (t : Timer)
    → j < t.sleep_listeners
    → i + 1 < t.sleep_listeners
    → sleeper (after_over j t) i ≡ sleeper t (source (t.sleep_listeners - 1) j i)
sleeper-over j i t hj hi =
    let inside : leb t.sleep_listeners j ≡ false = ground arith in
    elim (Bool-cases (j == i)) [
      | inl same ↦
          let apart : (j == (t.sleep_listeners - 1)) ≡ false = ground arith in
          rw (inside, same, apart)
      | inr other ↦ rw (inside, other)
    ]

kept-over :
    (j i : ℕ) (t : Timer)
    → j < t.sleep_listeners
    → i + 1 < t.sleep_listeners
    → kept j (after_over j t) i ≡ kept j t (source (t.sleep_listeners - 1) j i)
kept-over j i t hj hi =
    let last : ltb i j ≡ ltb (source (t.sleep_listeners - 1) j i) j = ground arith in
    ap₂ (λ (b : Bool) (x : Sleeper). if b then some x else aged x) last (sleeper-over j i t hj hi)

kept-none : (j : ℕ) (t : Timer) → is_over j (count_tick j t) ≡ true → kept j t j ≡ none
kept-none j t over =
    let here : ltb j j ≡ false = ground arith in
    let old : (add32 (t.sleep_counter j) 1 == t.alarm_sleep j) ≡ true =
      sym (rw (==_self j)) ∙ over in
    rw (here, old)

-- `x` is an entry of the table.
abbrev pub IsListed : Sleeper → Timer → Type 0
IsListed x t = (i : ℕ) × (i < t.sleep_listeners) × (sleeper t i ≡ x)

some_injective : (x y : Sleeper) → some x ≡ some y → x ≡ y
some_injective x y e = cc

IsListed-all :
    (j : ℕ) (t : Timer) (x : Sleeper)
    → t.sleep_listeners ≡ j
    → IsListed x t ↔ IsKept t.sleep_listeners j t x
IsListed-all j t x whole = (
  λ p. let (i, lt, e) = p in (i, lt, rw (below i lt) (ap some e)),
  λ p. let (i, lt, e) = p in (i, lt, some_injective (sleeper t i) x (sym (rw (below i lt)) ∙ e)),
)
  where
    below : (i : ℕ) → i < t.sleep_listeners → ltb i j ≡ true
    below i lt = ground arith

IsKept-moves_on :
    (n j : ℕ) (t : Timer) (x : Sleeper)
    → is_over j (count_tick j t) ≡ false
    → IsKept n (j + 1) (count_tick j t) x ↔ IsKept n j t x
IsKept-moves_on n j t x goes = (
  λ p. let (i, lt, e) = p in (i, lt, sym (kept-moves_on j i t goes) ∙ e),
  λ p. let (i, lt, e) = p in (i, lt, kept-moves_on j i t goes ∙ e),
)

IsKept-over :
    (j : ℕ) (t : Timer) (x : Sleeper)
    → j < t.sleep_listeners
    → is_over j (count_tick j t) ≡ true
    → IsKept (t.sleep_listeners - 1) j (after_over j t) x ↔ IsKept t.sleep_listeners j t x
IsKept-over j t x hj over = (
  λ p.
      let (i, lt, e) = p in
      (source last j i, ground arith, sym (kept-over j i t hj (omega arith)) ∙ e),
  λ p. let (i, lt, e) = p in back i lt e,
)
  where
    last : ℕ
    last = t.sleep_listeners - 1

    back :
        (i : ℕ)
        → i < t.sleep_listeners
        → kept j t i ≡ some x
        → IsKept (t.sleep_listeners - 1) j (after_over j t) x
    back i lt e = elim (Bool-cases (j == i)) [
      | inl same ↦
          let here : j ≡ i = ground arith in
          let gone : kept j t i ≡ none =
            sym (ap (λ (k : ℕ). kept j t k) here) ∙ kept-none j t over in
          cc
      | inr other ↦ elim (dec_lt i (t.sleep_listeners - 1)) [
        | yes inside ↦ (i, inside, kept-over j i t hj (omega arith) ∙ rw other e)
        | no outside ↦
            let here : i ≡ t.sleep_listeners - 1 = omega arith in
            let apart : j ≢ i = ground arith in
            (
              j,
              omega arith,
              kept-over j j t hj (omega arith)
                  ∙ rw (==_self j) (sym (ap (λ (k : ℕ). kept j t k) here) ∙ e),
            )
      ]
    ]

pub sleep_listeners-over :
    (j : ℕ) (t : Timer)
    → j < t.sleep_listeners
    → (after_over j t).sleep_listeners ≡ t.sleep_listeners - 1
sleep_listeners-over j t hj =
    let inside : leb t.sleep_listeners j ≡ false = ground arith in rw inside

tick_loop_lem :
    (n j : ℕ) (t : Timer) (x : Sleeper)
    → j + n ≡ t.sleep_listeners
    → IsListed x (tick_loop n j t) ↔ IsKept t.sleep_listeners j t x
unfolding tick_loop
tick_loop_lem zero j t x e = IsListed-all j t x (omega arith)
tick_loop_lem (suc n) j t x e =
    let goes : ltb j t.sleep_listeners ≡ true = ground arith in
    elim (Bool-cases (is_over j (count_tick j t))) [
      | inl over ↦
          let shorter : (after_over j t).sleep_listeners ≡ t.sleep_listeners - 1 =
            sleep_listeners-over j t (omega arith) in
          let ih =
            subst
              (λ (m : ℕ).
                IsListed x (tick_loop n j (after_over j t)) ↔ IsKept m j (after_over j t) x)
              shorter (tick_loop_lem n j (after_over j t) x (omega (arith, shorter))) in
          let moved = IsKept-over j t x (omega arith) over in
          rw (goes, over) (λ p. moved.0 (ih.0 p), λ p. ih.1 (moved.1 p))
      | inr young ↦
          let ih = tick_loop_lem n (j + 1) (count_tick j t) x (omega arith) in
          let moved = IsKept-moves_on t.sleep_listeners j t x young in
          rw (goes, young) (λ p. moved.0 (ih.0 p), λ p. ih.1 (moved.1 p))
    ]

-- After a tick of the timer the table lists exactly the sleepers that were listed and are not over,
-- each one tick older.
pub timer_tick-IsListed :
    (t : Timer) (x : Sleeper)
    → IsListed x (timer_tick t)
      ↔ ((i : ℕ) × (i < t.sleep_listeners) × (aged (sleeper t i) ≡ some x))
unfolding timer_tick
timer_tick-IsListed t x =
    let loop = tick_loop_lem t.sleep_listeners 0 t x (omega arith) in
    (
      λ p. let (i, lt, e) = loop.0 p in (i, lt, sym (rw (none_below i)) ∙ e),
      λ p. let (i, lt, e) = p in loop.1 (i, lt, rw (none_below i) e),
    )
  where
    none_below : (i : ℕ) → ltb i 0 ≡ false
    none_below i = ground arith
