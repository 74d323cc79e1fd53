-- ===== src/Pipes.antt =====
-- Kernel/IPC.c, `write`, `read` and what they call. `pipes` gives the pipe at an address and `table`
-- the entries of `pipes`; a message and a result are lists of characters.
pub mod Names
pub mod Fifo
pub mod Calls
pub mod Faults
pub mod Tests
use sistemas_operativos.Base.{
  ℕ, zero, suc, ◌+◌, ◌%◌, List, [], ◌∷◌, ◌++◌, length, Bool, true, false, ◌&&◌, ◌||◌, not,
  if◌then◌else◌, ◌==◌, leb, ltb, update, non_negative, get_or, set, neg,
}
use sistemas_operativos.Text.{strcmp}
use sistemas_operativos.Run.{Run, Code, done, yielded, ◌>>=◌, ◌>>◌, pure, modify, read, give_up}
use sistemas_operativos.Scheduler.{ProcessState, blocked, ready, get_current_pid}
use sistemas_operativos.Mutex.{World, set_state, lock_mutex, free_mutex}

abbrev pub pipe_length : ℕ
pipe_length = 10

abbrev pub max_pipes : ℕ
max_pipes = 50

abbrev pub pipe_not_found : ℕ
pipe_not_found = neg 2

-- `stored` is what the field `pipe` points to, and `blocked_pids` the array `blocked`. The arrays of
-- pids, which the code lays over one another, are kept apart.
pub record Pipe : Type 0 where
  pub stored : List ℕ
  pub name : ℕ
  pub mutex : ℕ
  pub position : ℕ
  pub end_ : ℕ
  pub read_flag : ℕ
  pub blocked_pids : ℕ → ℕ
  pub cardinal_blocked : ℕ
  pub creator : ℕ
  pub pipe_pids : ℕ → ℕ
  pub connected : ℕ

-- The fields of a process that are about its pipes; `pipes_struct` is where they lie.
pub record Owner : Type 0 where
  pub pipes_opened : ℕ
  pub occupied_position : ℕ → ℕ
  pub pipes_struct : ℕ

pub record System : Type 0 where
  pub world : World
  pub pipes : ℕ → Pipe
  pub pipe_names : ℕ → ℕ
  pub table : ℕ → ℕ
  pub last_pipe_name : ℕ
  pub ipc_admin_mutex : ℕ
  pub owners : ℕ → Owner

abbrev pub set_pipe : ℕ → Pipe → System → System
set_pipe p x s = record s { pipes = update s.pipes p x }

abbrev pub on_world : (World → World) → System → System
on_world f s = record s { world = f s.world }

abbrev pub lift_run : {A : Type 0} → System → Run World A → Run System A
lift_run s (done a w) = done a (record s { world = w })
lift_run s (yielded w k) = yielded (record s { world = w }) (λ s'. lift_run s' (k s'.world))

abbrev pub lift : {A : Type 0} → Code World A → Code System A
lift m s = lift_run s (m s.world)

abbrev pub current_pid : System → ℕ
current_pid s = get_current_pid s.world.sched

-- The index that `next` moves the pointer to.
abbrev pub next : ℕ → ℕ
next aux = if aux + 1 == pipe_length then 0 else aux + 1

name_index_loop : ℕ → ℕ → List ℕ → System → ℕ
name_index_loop zero i name s = pipe_not_found
name_index_loop (suc n) i name s =
    let rest = name_index_loop n (i + 1) name s in
    if strcmp (s.world.text (s.pipe_names i)) name == 0 then i else rest

unfoldable pub get_pipe_name_index : ℕ → System → ℕ
unfolding name_index_loop
get_pipe_name_index name s = name_index_loop max_pipes 0 (s.world.text name) s

-- The `for` loop of `unlockProcesses`: the rounds left, and the round.
pub wake_loop : ℕ → ℕ → Pipe → World → World
wake_loop zero j x w = w
wake_loop (suc n) j x w = wake_loop n (j + 1) x (set_state (x.blocked_pids j) ready w)

-- The `while` loop of `unlockProcesses`.
pub unlock_loop : ℕ → ℕ → List ℕ → System → System
unfolding wake_loop
unlock_loop zero i name s = s
unlock_loop (suc n) i name s =
    let rest = unlock_loop n (i + 1) name s in
    let x = s.pipes (s.table i) in
    if strcmp (s.world.text (s.pipe_names i)) name == 0
    then set_pipe (s.table i) (record x { cardinal_blocked = 0 })
        (on_world (wake_loop x.cardinal_blocked 0 x) s)
    else rest

-- How many entries are looked at; a failed `createPipe` leaves `lastPipeName` at -1.
abbrev pub entries : System → ℕ
entries s = if non_negative s.last_pipe_name then s.last_pipe_name else 0

unfoldable pub unlock_processes : ℕ → System → System
unfolding unlock_loop
unlock_processes name s = unlock_loop (entries s) 0 (s.world.text name) s

-- The loop of `write`: the characters left, `aux` and `bytes`; how many were written, and the
-- characters stored.
pub write_loop : List ℕ → ℕ → ℕ → Pipe → ℕ × List ℕ
write_loop [] aux bytes x = (bytes, x.stored)
write_loop (c ∷ message) aux bytes x =
    let rest =
      write_loop message (next aux) (bytes + 1) (record x { stored = set x.stored aux c }) in
    if not ((x.end_ + bytes) % pipe_length == x.position) || (bytes == 0)
    then rest
    else (bytes, x.stored)

-- What `write` does to the pipe; `aux` is read before the mutex is taken.
abbrev pub written : ℕ → List ℕ → Pipe → Pipe
written aux message x =
    let (bytes, stored) = write_loop message aux 0 x in
    let end_ : ℕ = (x.end_ + bytes) % pipe_length in
    record x {
      stored = stored;
      end_ = end_;
      read_flag = if end_ == x.position then 1 else x.read_flag;
    }

abbrev pub unlock : ℕ → System → System
unlock p s = on_world (free_mutex (s.pipes p).mutex) s

-- The part of `write` behind `lockMutex`.
pub write_locked : ℕ → ℕ → List ℕ → System → ℕ × System
unfolding write_loop
write_locked aux p message s =
    let x = s.pipes p in
    if (x.position == x.end_) && (x.read_flag == 1)
    then (0, unlock p (on_world (set_state (current_pid s) blocked) s))
    else (
      (write_loop message aux 0 x).0,
      unlock p (unlock_processes x.name (set_pipe p (written aux message x) s)),
    )

unfoldable pub write : ℕ → List ℕ → Code System ℕ
unfolding write_locked
write p message = do
  aux ← read (λ s. (s.pipes p).end_)
  mutex ← read (λ s. (s.pipes p).mutex)
  lift (lock_mutex mutex)
  (λ s. done (write_locked aux p message s).0 (write_locked aux p message s).1)

-- The loop of `read`, on as many rounds as `bytes` asks for: `aux` and `i`; the characters read.
pub read_loop : ℕ → ℕ → ℕ → Pipe → List ℕ
read_loop zero aux i x = []
read_loop (suc n) aux i x =
    let rest = read_loop n (next aux) (i + 1) x in
    if not ((i + x.position) % pipe_length == x.end_) || (i == 0)
    then get_or x.stored aux 0 ∷ rest
    else []

-- How many characters `bytes` asks for; -1 stands for all, other negative numbers for none.
abbrev pub asked : ℕ → ℕ
asked bytes = if bytes == neg 1 then pipe_length else if non_negative bytes then bytes else 0

-- The pipe once `i` characters are read.
abbrev pub consumed : ℕ → Pipe → Pipe
consumed i x = record x { position = (x.position + i) % pipe_length; read_flag = 0 }

-- The part of `read` behind `lockMutex`: the characters read, their number returned.
pub read_locked : ℕ → ℕ → ℕ → Code System (List ℕ)
unfolding read_loop
read_locked aux p bytes s =
    let x = s.pipes p in
    let pid = current_pid s in
    let got = read_loop (asked bytes) aux 0 x in
    let waiting = record x {
      blocked_pids = update x.blocked_pids x.cardinal_blocked pid;
      cardinal_blocked = x.cardinal_blocked + 1;
    } in
    if (x.position == x.end_) && (x.read_flag == 0)
    then yielded (unlock p (set_pipe p waiting (on_world (set_state pid blocked) s)))
        (λ s'. done [] s')
    else done got (unlock p (set_pipe p (consumed (length got) x) s))

unfoldable pub read_pipe : ℕ → ℕ → Code System (List ℕ)
unfolding read_locked
read_pipe p bytes = do
  aux ← read (λ s. (s.pipes p).position)
  mutex ← read (λ s. (s.pipes p).mutex)
  lift (lock_mutex mutex)
  read_locked aux p bytes
