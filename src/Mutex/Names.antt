-- ===== src/Mutex/Names.antt =====
-- Kernel/mutex.c, `getMutex` and `closeMutex`: mutexes by name.
use sistemas_operativos.Base.{
  ℕ, ◌<◌, ◌≡◌, ◌≢◌, ◌⊎◌, refl, arith, List, Bool, true, ◌&&◌, ◌==◌, ==_self, ==_ne, ==_true,
}
use sistemas_operativos.Text.{strcmp}
use sistemas_operativos.Scheduler.{get_current_pid}
use sistemas_operativos.Mutex.{
  World, set_mutex, is_valid_mutex, get_index, get_free_spot, create_mutex, close_mutex, error,
  mutex_not_found, no_space_left_m, max_mutexes,
}

-- Mutex `i` is in use under that name.
abbrev pub answers : List ℕ → World → ℕ → Bool
answers name w i = (strcmp (w.text (w.mutexes i).name) name == 0) && ((w.mutexes i).used == 1)

-- How `index` answers a request for a name in `w` that leaves `w'`: with the mutex found under the
-- name, with a place that was free, if there is no such mutex, or with the error value, if all
-- places are in use as well. Except for an error the name finds `index` afterwards.
abbrev pub Answered : ℕ → World → World → ℕ → Type 0
Answered name w w' index =
    ((get_index name w ≡ index) × (index < max_mutexes) × (get_index name w' ≡ index))
    ⊎ ((get_index name w ≡ mutex_not_found)
        × ((w.mutexes index).used ≡ 0)
        × (index < max_mutexes)
        × (get_index name w' ≡ index))
    ⊎ ((get_index name w ≡ mutex_not_found)
        × ((k : ℕ) → k < max_mutexes → (w.mutexes k).used ≢ 0)
        × (index ≡ error))

-- The world after the administration mutex has been taken.
abbrev pub admin_locked : World → World
admin_locked w =
    set_mutex w.admin_mutex (record (w.mutexes w.admin_mutex) { mutex = 1; cardinal_blocked = 0 }) w

-- A world with a mutex open again.
abbrev pub opened : ℕ → World → World
opened a w = set_mutex a (record (w.mutexes a) { mutex = 0 }) w

create_mutex-at :
    (i name : ℕ) (w : World)
    → get_free_spot w ≡ i
    → i < max_mutexes
    → create_mutex name w ≡ (
      i,
      set_mutex i
          (record (w.mutexes i) { used = 1; name = name; pid_creator = get_current_pid w.sched })
          w,
    )
unfolding create_mutex
create_mutex-at i name w spot small = rw (spot, ==_ne i no_space_left_m (omega arith))

close_mutex-own :
    (i : ℕ) (w : World)
    → is_valid_mutex i w ≡ true
    → get_current_pid w.sched ≡ (w.mutexes i).pid_creator
    → close_mutex i w ≡ set_mutex i (record (w.mutexes i) { used = 0 }) w
unfolding close_mutex
close_mutex-own i w valid mine =
    rw (valid, ==_true (get_current_pid w.sched) (w.mutexes i).pid_creator mine)

-- A closed mutex keeps its lock word and its queue: when `createMutex` uses its entry for another
-- name, the new mutex is taken from the start, though nobody holds it, and `lockMutex` on it does
-- not get it.
create_mutex-stale :
    (i name : ℕ) (w : World)
    → is_valid_mutex i w ≡ true
    → get_current_pid w.sched ≡ (w.mutexes i).pid_creator
    → (w.mutexes i).mutex ≡ 1
    → get_free_spot (close_mutex i w) ≡ i
    → i < max_mutexes
    → let (index, w') = create_mutex name (close_mutex i w) in
      (index ≡ i)
      × (is_valid_mutex i w' ≡ true)
      × ((w'.mutexes i).name ≡ name)
      × ((w'.mutexes i).mutex ≡ 1)
      × ((w'.mutexes i).queue ≡ (w.mutexes i).queue)
create_mutex-stale i name w valid mine taken spot small =
    rw
      (
        create_mutex-at i name (close_mutex i w) spot small,
        close_mutex-own i w valid mine,
        ==_self i,
      )
      (refl, ground arith, refl, taken, refl)
