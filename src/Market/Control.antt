-- ===== src/Market/Control.antt =====
-- Userland/dummy/dummy.c, `control`: keys make and end producers and consumers.
pub mod Crew
use sistemas_operativos.Base.{
  ℕ, zero, suc, ◌+◌, ◌-◌, ◌≤◌, ◌<◌, ◌≡◌, ◌≢◌, refl, sym, ap, ◌∙◌, arith, List, [], ◌∷◌, ◌++◌,
  append_assoc, append-nil, length, Bool, true, false, if◌then◌else◌, ◌==◌, leb, ltb, Bool-cases,
  inl, inr, drop, take, update, update_self, update_ne, Option, none, some,
}

abbrev pub max_producer : ℕ
max_producer = 10

abbrev pub max_consumer : ℕ
max_consumer = 10

-- `created` counts the calls of `createProcess`, of which `pids` gives the results; `removed` keeps
-- the pids handed to `removeProcess`, in order.
pub record Crowd : Type 0 where
  pub producers : ℕ
  pub consumers : ℕ
  pub producer_pid : ℕ → ℕ
  pub consumer_pid : ℕ → ℕ
  pub pids : ℕ → ℕ
  pub created : ℕ
  pub removed : List ℕ
  pub end_ : Bool

abbrev pub removing : List ℕ → Crowd → Crowd
removing l s = record s { removed = s.removed ++ l }

-- A loop of `killAllProcesses`, from index `i` on, with the rounds left: the pids that it removes.
pub kill_loop : ℕ → ℕ → (ℕ → ℕ) → List ℕ
kill_loop zero i pid = []
kill_loop (suc n) i pid = pid i ∷ kill_loop n (i + 1) pid

unfoldable pub kill_all_processes : Crowd → Crowd
unfolding kill_loop
kill_all_processes s =
    removing (kill_loop s.consumers 0 s.consumer_pid)
      (removing (kill_loop s.producers 0 s.producer_pid) s)

abbrev pub more_consumers : Crowd → Crowd
more_consumers s =
    if leb (s.consumers + 1) max_consumer
    then record s {
      consumers = s.consumers + 1;
      consumer_pid = update s.consumer_pid s.consumers (s.pids s.created);
      created = s.created + 1;
    }
    else s

abbrev pub more_producers : Crowd → Crowd
more_producers s =
    if leb (s.producers + 1) max_producer
    then record s {
      producers = s.producers + 1;
      producer_pid = update s.producer_pid s.producers (s.pids s.created);
      created = s.created + 1;
    }
    else s

abbrev pub fewer_producers : Crowd → Crowd
fewer_producers s =
    if leb 1 s.producers
    then record (removing (s.producer_pid (s.producers - 1) ∷ []) s) { producers = s.producers - 1 }
    else s

abbrev pub fewer_consumers : Crowd → Crowd
fewer_consumers s =
    if leb 1 s.consumers
    then record (removing (s.consumer_pid (s.consumers - 1) ∷ []) s) { consumers = s.consumers - 1 }
    else s

-- One round of the loop of `control`.
unfoldable pub control_key : ℕ → Crowd → Crowd
unfolding kill_all_processes
control_key c s =
    if c == b'c'
    then more_consumers s
    else if c == b'p'
    then more_producers s
    else if c == b'z'
    then fewer_producers s
    else if c == b'x'
    then fewer_consumers s
    else if c == b'q'
    then record (kill_all_processes s) { end_ = true }
    else s

-- The keys up to the one that ends the loop.
unfoldable pub control : List ℕ → Crowd → Crowd
unfolding control_key
control [] s = s
control (c ∷ keys) s = let rest = control keys (control_key c s) in if s.end_ then s else rest
