-- ===== src/Pipes/Tests.antt =====
-- Pipes of two processes, and the theorems there.
use sistemas_operativos.Base.{
  ℕ, ◌≡◌, ◌-◌, refl, arith, update, List, [], ◌∷◌, replicate, inl, inr, min, length,
}
use sistemas_operativos.Run.{done}
use sistemas_operativos.Semaphores.Tests.{system}
use sistemas_operativos.Pipes.{Pipe, System, write, read_pipe, asked, pipe_length}
use sistemas_operativos.Pipes.Fifo.{held, contents, IsPipe, Appended, Taken}
use sistemas_operativos.Pipes.Calls.{write_appends, read_takes}

abbrev empty_pipe : Pipe
empty_pipe = record {
  stored = replicate 10 7;
  name = 1;
  mutex = 3;
  position = 8;
  end_ = 8;
  read_flag = 0;
  blocked_pids = λ j. 6;
  cardinal_blocked = 1;
  creator = 5;
  pipe_pids = λ j. 5;
  connected = 1;
}

abbrev full_pipe : Pipe
full_pipe = record empty_pipe { read_flag = 1 }

abbrev message : List ℕ
message = 11 ∷ 12 ∷ []

-- Pipe 100 holds three characters over the end of its array, pipe 200 none, and pipe 300 ten.
abbrev pipes : System
pipes = record {
  world = system.world;
  pipes =
      update
        (update (λ p. empty_pipe) 100
          (record empty_pipe { stored = 3 ∷ 4 ∷ 5 ∷ 6 ∷ 7 ∷ 8 ∷ 9 ∷ 10 ∷ 1 ∷ 2 ∷ []; end_ = 1 }))
        300 full_pipe;
  pipe_names = λ i. i;
  table = update (update (λ i. 300) 0 100) 1 200;
  last_pipe_name = 2;
  ipc_admin_mutex = 4;
  owners = λ a. record { pipes_opened = 0; occupied_position = λ i. 0; pipes_struct = 400 };
}

some-IsPipe : IsPipe (pipes.pipes 100)
some-IsPipe = record {
  sized = refl;
  position_in = omega arith;
  end_in = omega arith;
  flag = inl refl;
}

none-IsPipe : IsPipe (pipes.pipes 200)
none-IsPipe = record {
  sized = refl;
  position_in = omega arith;
  end_in = omega arith;
  flag = inl refl;
}

full-IsPipe : IsPipe (pipes.pipes 300)
full-IsPipe = record {
  sized = refl;
  position_in = omega arith;
  end_in = omega arith;
  flag = inr (refl, refl);
}

three : contents (pipes.pipes 100) ≡ 1 ∷ 2 ∷ 3 ∷ []
three = refl

write_appends_example :
    (s' : System) × (write 100 message pipes
      ≡ done (min (pipe_length - held (pipes.pipes 100)) (length message)) s')
    × Appended message (pipes.pipes 100) (s'.pipes 100)
    × ((k : ℕ) → s'.world.mutexes k ≡ pipes.world.mutexes k)
write_appends_example =
    write_appends 100 message pipes (record { valid = refl; sound = omega arith; free = refl })
      some-IsPipe (omega arith) (omega arith)

read_takes_example :
    (got : List ℕ) × (s' : System) × (read_pipe 100 2 pipes ≡ done got s')
    × Taken (asked 2) got (pipes.pipes 100) (s'.pipes 100)
    × (s'.world.sched ≡ pipes.world.sched)
    × ((k : ℕ) → s'.world.mutexes k ≡ pipes.world.mutexes k)
read_takes_example =
    read_takes 100 2 pipes (record { valid = refl; sound = omega arith; free = refl }) some-IsPipe
      (omega arith) (omega arith)
