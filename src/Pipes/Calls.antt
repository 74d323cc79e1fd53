-- ===== src/Pipes/Calls.antt =====
-- Kernel/IPC.c: `write` and `read` as a process calls them, with the mutex of the pipe.
use mathlib.Core.Option
use sistemas_operativos.Base.{
  ℕ, zero, suc, ◌+◌, ◌-◌, ◌<◌, ◌≡◌, refl, ap, ◌∙◌, arith, min, List, [], length, true, false, ◌&&◌,
  Bool-cases, inl, inr, if◌then◌else◌, ◌==◌, ==_self, ==_iff, update,
}
use sistemas_operativos.Run.{done, yielded}
use sistemas_operativos.Text.{strcmp}
use sistemas_operativos.Scheduler.{Sched, blocked, ready, change_process_state}
use sistemas_operativos.Scheduler.State.{state_of, state_of-change_process_state}
use sistemas_operativos.Mutex.Lock.{IsSound, lock_mutex-free}
use sistemas_operativos.Mutex.{World, set_mutex, set_state, is_valid_mutex, free_mutex}
use sistemas_operativos.Mutex.Section.{free_mutex-taken, taken-mutexes}
use sistemas_operativos.Pipes.Fifo.{
  held, contents, IsPipe, Appended, Taken, written-Appended, consumed-Taken,
}
use sistemas_operativos.Pipes.{
  Pipe, System, set_pipe, on_world, current_pid, wake_loop, unlock_loop, unlock_processes, entries,
  write_loop, written, write_locked, write, read_loop, read_locked, read_pipe, consumed, asked,
  unlock, pipe_length,
}

-- The mutex of pipe `p` can be taken at once.
pub record IsOpen (p : ℕ) (s : System) : Type 0 where
  pub valid : is_valid_mutex (s.pipes p).mutex s.world ≡ true
  pub sound : IsSound (s.world.mutexes (s.pipes p).mutex)
  pub free : (s.world.mutexes (s.pipes p).mutex).mutex ≡ 0

abbrev pub locked : ℕ → System → System
locked p s =
    let k = (s.pipes p).mutex in
    on_world (set_mutex k (record (s.world.mutexes k) { mutex = 1; cardinal_blocked = 0 })) s

-- What waking the readers leaves alone: the mutexes, and a pipe but for who waits for it.
record IsWaking (p : ℕ) (s s' : System) : Type 0 where
  same_mutexes : s'.world ≡ record s.world { sched = s'.world.sched }
  count : ℕ
  same_pipe : s'.pipes p ≡ record (s.pipes p) { cardinal_blocked = count }

wake_loop-sched :
    (n j : ℕ) (x : Pipe) (w : World)
    → wake_loop n j x w ≡ record w { sched = (wake_loop n j x w).sched }
unfolding wake_loop
wake_loop-sched zero j x w = refl
wake_loop-sched (suc n) j x w = wake_loop-sched n (j + 1) x (set_state (x.blocked_pids j) ready w)

unlock_loop-IsWaking :
    (n i : ℕ) (name : List ℕ) (p : ℕ) (s : System) → IsWaking p s (unlock_loop n i name s)
unfolding unlock_loop
unlock_loop-IsWaking zero i name p s = record {
  same_mutexes = refl;
  count = (s.pipes p).cardinal_blocked;
  same_pipe = refl;
}
unlock_loop-IsWaking (suc n) i name p s =
    elim (Bool-cases (strcmp (s.world.text (s.pipe_names i)) name == 0)) [
      | inl hit ↦ elim (Bool-cases (s.table i == p)) [
        | inl same ↦ rw hit (record {
          same_mutexes =
              wake_loop-sched (s.pipes (s.table i)).cardinal_blocked 0 (s.pipes (s.table i))
                s.world;
          count = 0;
          same_pipe = let e : s.table i ≡ p = (==_iff (s.table i) p).0 same in rw (same, e);
        })
        | inr other ↦ rw hit (record {
          same_mutexes =
              wake_loop-sched (s.pipes (s.table i)).cardinal_blocked 0 (s.pipes (s.table i))
                s.world;
          count = (s.pipes p).cardinal_blocked;
          same_pipe = rw other;
        })
      ]
      | inr miss ↦ rw miss (unlock_loop-IsWaking n (i + 1) name p s)
    ]

Appended-count :
    (message : List ℕ) (x y : Pipe) (count : ℕ)
    → Appended message x y
    → Appended message x (record y { cardinal_blocked = count })
Appended-count message x y count a = record {
  appended = a.appended;
  total = a.total;
  pipe = record {
    sized = a.pipe.sized;
    position_in = a.pipe.position_in;
    end_in = a.pipe.end_in;
    flag = a.pipe.flag;
  };
}

-- The system once a message is written, the mutex still taken.
abbrev stored : ℕ → List ℕ → System → System
stored p message s =
    unlock_processes (s.pipes p).name
      (set_pipe p (written (s.pipes p).end_ message (s.pipes p)) (locked p s))

stored-IsWaking :
    (p : ℕ) (message : List ℕ) (s : System)
    → IsWaking p
        (set_pipe p (written (s.pipes p).end_ message (s.pipes p)) (locked p s))
        (stored p message s)
unfolding unlock_processes
stored-IsWaking p message s =
    unlock_loop-IsWaking (entries s) 0 (s.world.text (s.pipes p).name) p
      (set_pipe p (written (s.pipes p).end_ message (s.pipes p)) (locked p s))

write-stored :
    (p : ℕ) (message : List ℕ) (s : System)
    → IsOpen p s
    → held (s.pipes p) < pipe_length
    → write p message s
      ≡ done (write_loop message (s.pipes p).end_ 0 (s.pipes p)).0 (unlock p (stored p message s))
unfolding write write_locked
write-stored p message s o room =
    let fits : ((s.pipes p).position == (s.pipes p).end_) && ((s.pipes p).read_flag == 1) ≡ false =
      ground arith in
    rw (lock_mutex-free (s.pipes p).mutex s.world o.valid o.sound o.free, fits)

-- A caller of `write` that finds the mutex of the pipe free and room in the pipe goes on at once:
-- as much of the message as fits is appended to the characters in the pipe, their number is
-- returned, and no mutex has changed.
pub write_appends :
    (p : ℕ) (message : List ℕ) (s : System)
    → IsOpen p s
    → IsPipe (s.pipes p)
    → held (s.pipes p) < pipe_length
    → 0 < length message
    → (s' : System) × (write p message s
        ≡ done (min (pipe_length - held (s.pipes p)) (length message)) s')
      × Appended message (s.pipes p) (s'.pipes p)
      × ((k : ℕ) → s'.world.mutexes k ≡ s.world.mutexes k)
write_appends p message s o v room some = (
  unlock p (stored p message s),
  rw (write-stored p message s o room, done_right.0),
  rw (woken.same_pipe, ==_self p) (Appended-count message _ _ woken.count done_right.1),
  λ j.
      rw (woken.same_pipe, ==_self p)
        (ap (λ (w : World). (free_mutex (s.pipes p).mutex w).mutexes j) woken.same_mutexes
          ∙ taken-mutexes (s.pipes p).mutex s.world o.valid o.sound o.free
              (stored p message s).world.sched j),
)
  where
    woken :
        IsWaking p
          (set_pipe p (written (s.pipes p).end_ message (s.pipes p)) (locked p s))
          (stored p message s)
    woken = stored-IsWaking p message s

    done_right :
        ((write_loop message (s.pipes p).end_ 0 (s.pipes p)).0
          ≡ min (pipe_length - held (s.pipes p)) (length message))
        × Appended message (s.pipes p) (written (s.pipes p).end_ message (s.pipes p))
    done_right = written-Appended message (s.pipes p) v room some

abbrev drained : ℕ → ℕ → System → System
drained n p s =
    set_pipe p (consumed (length (read_loop n (s.pipes p).position 0 (s.pipes p))) (s.pipes p))
      (locked p s)

-- A caller of `read` that finds the mutex of the pipe free and characters in the pipe, and asks for
-- at least one, goes on at once with the oldest of them in order, as many as it asks for and are
-- there; the others stay, and neither a mutex nor a process has changed.
pub read_takes :
    (p bytes : ℕ) (s : System)
    → IsOpen p s
    → IsPipe (s.pipes p)
    → 0 < held (s.pipes p)
    → 0 < asked bytes
    → (got : List ℕ) × (s' : System) × (read_pipe p bytes s ≡ done got s')
      × Taken (asked bytes) got (s.pipes p) (s'.pipes p)
      × (s'.world.sched ≡ s.world.sched)
      × ((k : ℕ) → s'.world.mutexes k ≡ s.world.mutexes k)
unfolding read_pipe read_locked
read_takes p bytes s o v some asks = (
  read_loop (asked bytes) (s.pipes p).position 0 (s.pipes p),
  unlock p (drained (asked bytes) p s),
  let there : ((s.pipes p).position == (s.pipes p).end_) && ((s.pipes p).read_flag == 0) ≡ false =
        ground (arith, v.flag) in
      rw (lock_mutex-free (s.pipes p).mutex s.world o.valid o.sound o.free, there),
  rw (==_self p) (consumed-Taken (asked bytes) (s.pipes p) v some asks),
  rw (==_self p) (
      ap (λ (w : World). w.sched)
        (free_mutex-taken (s.pipes p).mutex s.world o.valid o.sound o.free s.world.sched)),
  λ j.
      rw (==_self p)
        (taken-mutexes (s.pipes p).mutex s.world o.valid o.sound o.free s.world.sched j),
)

-- A caller of `read` that finds the mutex free and the pipe empty is entered in the pipe behind
-- those that wait, is blocked, gives the mutex back and gives up the processor; it reads nothing.
read_blocks :
    (p bytes : ℕ) (s : System)
    → IsOpen p s
    → IsPipe (s.pipes p)
    → held (s.pipes p) ≡ 0
    → (s' : System) × (read_pipe p bytes s ≡ yielded s' (λ later. done [] later))
      × ((s'.pipes p).blocked_pids (s.pipes p).cardinal_blocked ≡ current_pid s)
      × ((s'.pipes p).cardinal_blocked ≡ (s.pipes p).cardinal_blocked + 1)
      × (contents (s'.pipes p) ≡ contents (s.pipes p))
      × ((other : ℕ)
          → state_of other s'.world.sched ≡ (
              if current_pid s == other
              then Option.map (λ _. blocked) (state_of (current_pid s) s.world.sched)
              else state_of other s.world.sched))
      × ((k : ℕ) → s'.world.mutexes k ≡ s.world.mutexes k)
unfolding read_pipe read_locked
read_blocks p bytes s o v nothing = (
  unlock p s₂,
  let empty : ((s.pipes p).position == (s.pipes p).end_) && ((s.pipes p).read_flag == 0) ≡ true =
        ground (arith, v.flag, v.position_in, v.end_in) in
      rw (lock_mutex-free (s.pipes p).mutex s.world o.valid o.sound o.free, empty),
  rw (==_self p, ==_self (s.pipes p).cardinal_blocked),
  rw (==_self p),
  rw (==_self p),
  λ other.
      rw (==_self p, free_mutex-taken (s.pipes p).mutex s.world o.valid o.sound o.free sched)
        (state_of-change_process_state (current_pid s) other blocked s.world.sched),
  λ j. rw (==_self p) (taken-mutexes (s.pipes p).mutex s.world o.valid o.sound o.free sched j),
)
  where
    sched : Sched
    sched = change_process_state (current_pid s) blocked s.world.sched

    s₂ : System
    s₂ =
        set_pipe p
          (record (s.pipes p) {
            blocked_pids =
                update (s.pipes p).blocked_pids (s.pipes p).cardinal_blocked (current_pid s);
            cardinal_blocked = (s.pipes p).cardinal_blocked + 1;
          })
          (on_world (set_state (current_pid s) blocked) (locked p s))
