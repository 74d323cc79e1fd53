-- ===== src/Pipes/Faults.antt =====
-- Kernel/IPC.c: what `write` and `read` do at the ends of the pipe that the flag does not tell.
use mathlib.Core.Option
use sistemas_operativos.Base.{ℕ, ◌≡◌, refl, ◌∙◌, arith, List, [], true, ◌&&◌, ◌==◌, ==_self}
use sistemas_operativos.Run.{done}
use sistemas_operativos.Scheduler.{blocked, change_process_state}
use sistemas_operativos.Scheduler.State.{state_of, state_of-change_process_state}
use sistemas_operativos.Mutex.Lock.{lock_mutex-free}
use sistemas_operativos.Mutex.Section.{free_mutex-taken}
use sistemas_operativos.Mutex.{set_state}
use sistemas_operativos.Pipes.Fifo.{held, contents, IsPipe}
use sistemas_operativos.Pipes.Calls.{IsOpen, locked}
use sistemas_operativos.Pipes.{
  Pipe, System, on_world, current_pid, write_loop, written, write_locked, write, read_loop,
  consumed, unlock, pipe_length,
}

-- Writing an empty message to an empty pipe makes it full: ten characters that nobody wrote are
-- there to be read.
write_nothing :
    (x : Pipe)
    → IsPipe x
    → held x ≡ 0
    → (held (written x.end_ [] x) ≡ pipe_length) × ((written x.end_ [] x).stored ≡ x.stored)
unfolding write_loop
write_nothing x v nothing = (ground (arith, v.position_in, v.end_in), refl)

-- Reading no characters from a full pipe empties it.
read_nothing :
    (x : Pipe)
    → IsPipe x
    → held x ≡ pipe_length
    → (read_loop 0 x.position 0 x ≡ []) × (contents (consumed 0 x) ≡ [])
unfolding read_loop
read_nothing x v full =
    let e : held (consumed 0 x) ≡ 0 = ground (arith, v.position_in, v.end_in) in (refl, rw e)

-- A caller of `write` that finds the mutex free and the pipe full is blocked, but no pipe is
-- changed: it is entered nowhere, and returns 0 without giving up the processor.
write_full :
    (p : ℕ) (message : List ℕ) (s : System)
    → IsOpen p s
    → IsPipe (s.pipes p)
    → held (s.pipes p) ≡ pipe_length
    → (s' : System) × (write p message s ≡ done 0 s')
      × ((q : ℕ) → s'.pipes q ≡ s.pipes q)
      × (state_of (current_pid s) s'.world.sched
          ≡ Option.map (λ _. blocked) (state_of (current_pid s) s.world.sched))
unfolding write write_locked
write_full p message s o v full = (
  unlock p (on_world (set_state (current_pid s) blocked) (locked p s)),
  let taken_up : ((s.pipes p).position == (s.pipes p).end_) && ((s.pipes p).read_flag == 1) ≡ true =
        ground (arith, v.position_in, v.end_in) in
      rw (lock_mutex-free (s.pipes p).mutex s.world o.valid o.sound o.free, taken_up),
  λ q. refl,
  rw
      (free_mutex-taken (s.pipes p).mutex s.world o.valid o.sound o.free
        (change_process_state (current_pid s) blocked s.world.sched))
      (state_of-change_process_state (current_pid s) (current_pid s) blocked s.world.sched
        ∙ rw (==_self (current_pid s))),
)
