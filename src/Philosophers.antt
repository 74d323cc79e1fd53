-- ===== src/Philosophers.antt =====
-- Userland/dummy/dummy.c: the philosophers. What a philosopher does between `lockMutex` and
-- `freeMutex` is one step, since all of them use one mutex; a semaphore is how many calls of `wait`
-- it lets pass. Calls of `sleep` end sooner or later and are left out.
pub mod Pointers
pub mod Parameters
pub mod Forks
pub mod Meals
pub mod Tests
use sistemas_operativos.Base.{
  ℕ, zero, suc, ◌+◌, ◌-◌, ◌/◌, ◌%◌, ◌^◌, List, [], ◌∷◌, Bool, true, false, ◌&&◌, not, if◌then◌else◌,
  ◌==◌, ltb, update, Option, none, some,
}

abbrev pub defaultp : ℕ
defaultp = 5

abbrev pub thinking : ℕ
thinking = 0

abbrev pub hungry : ℕ
hungry = 1

abbrev pub eating : ℕ
eating = 2

-- What is printed, with the numbers in it.
pub data Said : Type 0 where
  is_hungry is_eating is_thinking : ℕ → Said
  takes_fork puts_down : ℕ → ℕ → Said

-- Where a philosopher is in its endless loop: before `take_fork`, in the call of `wait` at its end,
-- or behind it.
pub data Place : Type 0 where
  outside waits eats : Place

-- `count` is kept for the numbers that `valid` takes for semaphores.
pub record Table : Type 0 where
  pub state : ℕ → ℕ
  pub place : ℕ → Place
  pub count : ℕ → ℕ
  pub valid : ℕ → Bool
  pub said : List Said

-- The fields of `threadArgument` that all philosophers share: how many they are, and which `int`
-- lies at each place from `sems` on.
pub record Shared : Type 0 where
  pub cant : ℕ
  pub sems : ℕ → ℕ

-- `createThreads` hands on the array of pointers to the semaphores as an array of `int`s.
abbrev pub sems_of : (ℕ → ℕ) → ℕ → ℕ
sems_of semaphores i =
    if i % 2 == 0 then semaphores (i / 2) % 2 ^ 32 else semaphores (i / 2) / 2 ^ 32

abbrev pub say : Said → Table → Table
say x t = record t { said = x ∷ t.said }

abbrev pub set_state : ℕ → ℕ → Table → Table
set_state i st t = record t { state = update t.state i st }

abbrev pub at_place : ℕ → Place → Table → Table
at_place i p t = record t { place = update t.place i p }

-- `signal` and `wait` do nothing for a number that is no semaphore.
abbrev pub signal : ℕ → Table → Table
signal sem t = if t.valid sem then record t { count = update t.count sem (t.count sem + 1) } else t

-- Whether `wait` comes back, and what it leaves.
abbrev pub wait : ℕ → Table → Option Table
wait sem t =
    if not (t.valid sem)
    then some t
    else if t.count sem == 0
    then none
    else some (record t { count = update t.count sem (t.count sem - 1) })

unfoldable pub test_p : ℕ → ℕ → ℕ → Table → Table
test_p number total sem t =
    let can_eat =
      (t.state number == hungry)
      && (not (t.state ((number + 4) % total) == eating)
          && not (t.state ((number + 1) % total) == eating)) in
    let eaten =
      say (is_eating (number + 1))
        (say (takes_fork ((number + 4) % total + 1) (number + 1)) (set_state number eating t)) in
    if can_eat then signal sem eaten else t

-- The part of `take_fork` under the mutex.
unfoldable pub take_fork : Shared → ℕ → Table → Table
unfolding test_p
take_fork arg value t =
    test_p value arg.cant (arg.sems value) (say (is_hungry (value + 1)) (set_state value hungry t))

unfoldable pub put_fork : Shared → ℕ → Table → Table
unfolding test_p
put_fork arg value t =
    let left = (value + 4) % arg.cant in
    let right = (value + 1) % arg.cant in
    let put =
      say (is_thinking (value + 1))
        (say (puts_down (left + 1) (value + 1)) (set_state value thinking t)) in
    test_p right arg.cant (arg.sems right) (test_p left arg.cant (arg.sems left) put)

-- The next step of a philosopher; `none` while it is blocked.
unfoldable pub turn : Shared → ℕ → Table → Option Table
unfolding take_fork put_fork
turn arg i t = elim (t.place i) [
  | outside ↦ some (take_fork arg i (at_place i waits t))
  | waits ↦ elim (wait (arg.sems i) t) [ none ↦ none | some t' ↦ some (at_place i eats t') ]
  | eats ↦ some (put_fork arg i (at_place i outside t))
]

-- The philosophers take steps in any order; one that is blocked stays where it is.
unfoldable pub run : Shared → List ℕ → Table → Table
unfolding turn
run arg [] t = t
run arg (i ∷ order) t = elim (turn arg i t) [ none ↦ run arg order t | some t' ↦ run arg order t' ]
