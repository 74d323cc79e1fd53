-- ===== src/Pipes/Names.antt =====
-- Kernel/IPC.c: the table of pipes by name, `openPipe`, `createPipe` and `closePipe`. A pipe is
-- given by its address, NULL being 0.
use sistemas_operativos.Base.{
  ℕ, zero, suc, ◌+◌, ◌*◌, List, Bool, ◌&&◌, ◌||◌, not, if◌then◌else◌, ◌==◌, leb, ltb, update, add32,
  non_negative, neg, Option, none, some,
}
use sistemas_operativos.Text.{strcmp}
use sistemas_operativos.Run.{Code, done, ◌>>=◌, ◌>>◌, pure, modify, read}
use sistemas_operativos.Scheduler.{null, get_process_by_id}
use sistemas_operativos.Mutex.{lock_mutex, free_mutex, get_mutex}
use sistemas_operativos.Pipes.{
  Owner, System, set_pipe, on_world, lift, current_pid, max_pipes, pipe_not_found,
  get_pipe_name_index,
}

abbrev pub max_process_pipes : ℕ
max_process_pipes = 3

abbrev pub no_space_left : ℕ
no_space_left = neg 1

abbrev pub pipe_size : ℕ
pipe_size = 64

abbrev set_owner : ℕ → Owner → System → System
set_owner a o s = record s { owners = update s.owners a o }

abbrev free_admin : System → System
free_admin s = on_world (free_mutex s.ipc_admin_mutex) s

-- The rounds left, and the round; `slash_n` is the address of the text "/n".
initialize_loop : ℕ → ℕ → ℕ → System → System
initialize_loop zero i slash_n s = s
initialize_loop (suc n) i slash_n s =
    initialize_loop n (i + 1) slash_n
      (record s { pipe_names = update s.pipe_names i slash_n; table = update s.table i null })

-- `admin_name` is the address of the text "ipcAdminMutex".
unfoldable pub initialize_pipes : ℕ → ℕ → Code System (Unit {0})
unfolding initialize_loop
initialize_pipes slash_n admin_name = do
  modify (initialize_loop max_pipes 0 slash_n)
  index ← lift (get_mutex admin_name)
  modify (λ s. record s { ipc_admin_mutex = index })

-- The part of `openPipe` behind `lockMutex`, with the index of the name.
open_at : ℕ → System → ℕ × System
open_at i s =
    let x = s.pipes (s.table i) in
    let joined = record x {
      pipe_pids = update x.pipe_pids x.connected (current_pid s);
      connected = x.connected + 1;
    } in
    if i == pipe_not_found
    then (null, s)
    else (s.table i, free_admin (set_pipe (s.table i) joined s))

unfoldable pub open_pipe : ℕ → Code System ℕ
unfolding open_at
open_pipe name = do
  mutex ← read (λ s. s.ipc_admin_mutex)
  lift (lock_mutex mutex)
  (λ s. done (open_at (get_pipe_name_index name s) s).0 (open_at (get_pipe_name_index name s) s).1)

middle_loop : ℕ → ℕ → System → ℕ
middle_loop zero i s = no_space_left
middle_loop (suc n) i s =
    let rest = middle_loop n (i + 1) s in if s.pipe_names i == null then i else rest

unfoldable pub get_middle_space : System → ℕ
unfolding middle_loop
get_middle_space s = middle_loop max_pipes 0 s

-- The `while` loop of `getIndexForPipeStructure`.
position_loop : ℕ → ℕ → Owner → ℕ × Owner
position_loop zero i o = (no_space_left, o)
position_loop (suc n) i o =
    let rest = position_loop n (i + 1) o in
    if o.occupied_position i == 0 then (i, record o { pipes_opened = i + 1 }) else rest

unfoldable pub get_index_for_pipe_structure : Owner → ℕ × Owner
unfolding position_loop
get_index_for_pipe_structure o =
    if ltb max_process_pipes o.pipes_opened || (o.occupied_position o.pipes_opened == 1)
    then position_loop max_process_pipes 0 o
    else (o.pipes_opened, record o { pipes_opened = o.pipes_opened + 1 })

-- `pro` is the address of the process.
unfoldable pub create_pipe_struct : ℕ → ℕ → System → ℕ × System
create_pipe_struct pro name s =
    let (index, o) = get_index_for_pipe_structure (s.owners pro) in
    let pid = (s.world.sched.processes pro).pid in
    let p : ℕ = o.pipes_struct + index * pipe_size in
    let x = s.pipes p in
    if index == no_space_left then (null, set_owner pro o s) else (
      p,
      set_pipe p
          (record x {
            name = name;
            end_ = 0;
            read_flag = 0;
            connected = 1;
            creator = pid;
            pipe_pids = update x.pipe_pids 0 pid;
            position = 0;
            cardinal_blocked = 0;
          })
          (set_owner pro
            (record o { occupied_position = update o.occupied_position index 1; pipes_opened = 0 })
            s),
    )

-- The first test of `createPipe`: the place at `lastPipeName` cannot be used.
abbrev pub is_taken : System → Bool
is_taken s =
    (non_negative s.last_pipe_name && leb max_pipes s.last_pipe_name)
    || not (s.pipe_names s.last_pipe_name == null)

-- Where `createPipe` will enter the name: `lastPipeName` after that test.
pub choose_space : System → System
choose_space s = if is_taken s then record s { last_pipe_name = get_middle_space s } else s

-- The part of `createPipe` from `createPipeStruct` on. Without room in the process the mutex is
-- written through NULL.
enter_pipe : ℕ → ℕ → Code System ℕ
enter_pipe pro name = do
  pipe ← λ s. done (create_pipe_struct pro name s).0 (create_pipe_struct pro name s).1
  mutex ← lift (get_mutex name)
  modify (λ s. set_pipe pipe (record (s.pipes pipe) { mutex = mutex }) s)
  modify (λ s. record s {
    pipe_names = update s.pipe_names s.last_pipe_name name;
    table = update s.table s.last_pipe_name pipe;
    last_pipe_name = add32 s.last_pipe_name 1;
  })
  modify free_admin
  pure pipe

-- The part of `createPipe` behind `lockMutex`.
create_locked : ℕ → Code System ℕ
unfolding choose_space enter_pipe
create_locked name s =
    let s' = choose_space s in
    let pro = get_process_by_id (current_pid s) s'.world.sched in
    if is_taken s && (s'.last_pipe_name == no_space_left)
    then done null s'
    else if name == null
    then done null s'
    else if pro == null
    then done null s'
    else enter_pipe pro name s'

unfoldable pub create_pipe : ℕ → Code System ℕ
unfolding create_locked
create_pipe name = do
  mutex ← read (λ s. s.ipc_admin_mutex)
  lift (lock_mutex mutex)
  create_locked name

-- The loop of `freeSpace`, which has no other end than the name: `none` when it leaves the pipes of
-- the process.
space_loop : ℕ → ℕ → List ℕ → ℕ → System → Option ℕ
space_loop zero i name pro s = none
space_loop (suc n) i name pro s =
    let rest = space_loop n (i + 1) name pro s in
    let x = s.pipes ((s.owners pro).pipes_struct + i * pipe_size) in
    if strcmp (s.world.text x.name) name == 0 then some i else rest

unfoldable pub free_space : ℕ → ℕ → System → Option System
unfolding space_loop
free_space name pro s = elim (space_loop max_process_pipes 0 (s.world.text name) pro s) [
  | none ↦ none
  | some i ↦
      let o = s.owners pro in
      some (set_owner pro (record o { occupied_position = update o.occupied_position i 0 }) s)
]

unfoldable pub close_pipe : ℕ → System → Option System
close_pipe pipe s =
    let i = get_pipe_name_index (s.pipes pipe).name s in
    let pro = get_process_by_id (s.pipes pipe).creator s.world.sched in
    let name = (s.pipes (s.table i)).name in
    if i == pipe_not_found
    then some s
    else if (s.world.sched.processes pro).pid == current_pid s
    then free_space name pro (record s { table = update s.table i null })
    else some s
