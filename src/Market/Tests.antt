-- ===== src/Market/Tests.antt =====
-- Two producers and a consumer, and the theorems there.
use sistemas_operativos.Base.{
  ℕ, ◌+◌, ◌≤◌, ◌≡◌, refl, arith, List, [], ◌∷◌, ◌++◌, replicate, some, false,
}
use sistemas_operativos.Base.Window.{window}
use sistemas_operativos.Market.{
  Market, Turn, of_producer, of_consumer, buffer_size, prod_cons, run, turn,
}
use sistemas_operativos.Market.Sums.{sum}
use sistemas_operativos.Market.Order.{produces_inside, consumes_inside}
use sistemas_operativos.Market.Steps.{IsHere, run_fifo}
use sistemas_operativos.Market.Progress.{run_goes_on}
use sistemas_operativos.Market.Control.{Crowd, control}
use sistemas_operativos.Market.Control.Crew.{stacks_of, stacks_control, control-stacks_control}

-- Both producers make an item, the second puts its own first, and the consumer takes it.
abbrev turns : List Turn
turns =
    of_producer 0
    ∷ of_producer 1
    ∷ of_producer 1
    ∷ of_producer 1
    ∷ of_producer 1
    ∷ of_producer 0
    ∷ of_producer 1
    ∷ of_producer 1
    ∷ of_consumer 0
    ∷ of_consumer 0
    ∷ of_consumer 0
    ∷ []

abbrev memory : List ℕ
memory = replicate 50 0

second_first : (run turns (prod_cons memory)).got ≡ 1 ∷ []
unfolding run turn
second_first = refl

run_fifo_example :
    (n : ℕ) × ((run turns (prod_cons memory)).put
      ≡ (run turns (prod_cons memory)).got
        ++ window
            (run turns (prod_cons memory)).buffer
            buffer_size
            (run turns (prod_cons memory)).r
            n)
    × (n ≤ buffer_size)
    × (sum produces_inside (run turns (prod_cons memory)).producer 2
          + sum consumes_inside (run turns (prod_cons memory)).consumer 1
        ≤ 1)
run_fifo_example = run_fifo 2 1 turns memory refl (omega arith)

run_goes_on_example :
    (t : Turn) × IsHere 2 1 t × (s' : Market) × (turn t (run turns (prod_cons memory)) ≡ some s')
run_goes_on_example = run_goes_on 2 1 turns memory refl (omega arith) (omega arith) (omega arith)

abbrev crowd : Crowd
crowd = record {
  producers = 1;
  consumers = 1;
  producer_pid = λ k. 4;
  consumer_pid = λ k. 5;
  pids = λ n. 6 + n;
  created = 0;
  removed = [];
  end_ = false;
}

abbrev keys : List ℕ
keys = b'p' ∷ b'z' ∷ b'q' ∷ []

control-stacks_control_example :
    stacks_of (control keys crowd) ≡ stacks_control (λ n. 6 + n) keys (stacks_of crowd)
control-stacks_control_example = control-stacks_control keys crowd
