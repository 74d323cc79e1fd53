-- ===== src/Market/Steps.antt =====
-- Userland/dummy/dummy.c: producers and consumers in any order of steps.
use mathlib.Core.Path.{subst}
use sistemas_operativos.Base.{
  ℕ, suc, ◌+◌, ◌-◌, ◌%◌, ◌^◌, ◌≤◌, ◌<◌, ◌≡◌, ◌≢◌, refl, ap, arith, List, [], ◌∷◌, ◌++◌, length,
  ◌==◌, Bool-cases, inl, inr, Option, none, some, Option-cases,
}
use sistemas_operativos.Base.Window.{window}
use sistemas_operativos.Market.{
  Market, Producer, Consumer, Turn, buffer_size, prod_cons, take_one, producer_step, consumer_step,
  turn, run, resting, inserted, released, made, has_slot, entered, idle, has_item, inside, took,
  leaving, of_producer, of_consumer,
}
use sistemas_operativos.Market.Sums.{sum, sum_zero, weight-le}
use sistemas_operativos.Scheduler.Ring.{All}
use sistemas_operativos.Market.Order.{
  holds_slot, has_put, produces_inside, holds_item, has_got, consumes_inside, IsInOrder,
  moved_producer, moved_consumer, insert_item-IsInOrder, remove_item-IsInOrder,
}

some_inj : {s s' : Market} → some s ≡ some s' → s ≡ s'
some_inj {s} e = ap (λ (o : Option Market). elim o [ none ↦ s | some x ↦ x ]) e

take_one-some : (count : ℕ) (s s' : Market) → take_one count s ≡ some s' → (count ≢ 0) × (s ≡ s')
take_one-some count s s' e = elim (Bool-cases (count == 0)) [
  | inl none_left ↦ absurd (cc (rw none_left at e))
  | inr some_left ↦ (ground arith, some_inj (rw some_left at e))
]

abbrev pub Goes : ℕ → ℕ → Market → Type 0
Goes np nc s = (n : ℕ) × IsInOrder np nc s n

module _ (np nc : ℕ) (k : ℕ) (s s' : Market) (n : ℕ) (inv : IsInOrder np nc s n) where
  producer_step-Goes :
      (p : Producer) → s.producer k ≡ p → k < np → producer_step k s ≡ some s' → Goes np nc s'
  unfolding producer_step
  producer_step-Goes resting at lt e =
      let goes = some_inj (rw (producer_step, at) at e) in
      subst (Goes np nc) goes
        (n, moved_producer np nc k s n inv (made s.i) _ _ _ _ lt (rw at) (rw at) (rw at))
  producer_step-Goes (made item) at lt e =
      let v = take_one-some s.empty_count _ s' (rw (producer_step, at) at e) in
      subst (Goes np nc) (v.1) (
        n,
        moved_producer np nc k s n inv (has_slot item) _ _ _ _ lt (rw at)
            (rw at (omega (arith, v.0))) (rw at),
      )
  producer_step-Goes (has_slot item) at lt e =
      let v = take_one-some s.item_mutex _ s' (rw (producer_step, at) at e) in
      subst (Goes np nc) (v.1) (
        n,
        moved_producer np nc k s n inv (entered item) _ _ _ _ lt (rw at) (rw at)
            (rw at (omega (arith, v.0))),
      )
  producer_step-Goes (entered item) at lt e =
      let goes = some_inj (rw (producer_step, at) at e) in
      subst (Goes np nc) goes
        (suc n, insert_item-IsInOrder np nc k s n inv item (item % 2 ^ 8) lt at)
  producer_step-Goes inserted at lt e =
      let goes = some_inj (rw (producer_step, at) at e) in
      subst (Goes np nc) goes (
        n,
        moved_producer np nc k s n inv released _ _ _ _ lt (rw at) (rw at) (rw at (omega arith)),
      )
  producer_step-Goes released at lt e =
      let goes = some_inj (rw (producer_step, at) at e) in
      subst (Goes np nc) goes
        (n, moved_producer np nc k s n inv resting _ _ _ _ lt (rw at (omega arith)) (rw at) (rw at))

  consumer_step-Goes :
      (c : Consumer) → s.consumer k ≡ c → k < nc → consumer_step k s ≡ some s' → Goes np nc s'
  unfolding consumer_step
  consumer_step-Goes idle at lt e =
      let v = take_one-some s.full_count _ s' (rw (consumer_step, at) at e) in
      subst (Goes np nc) (v.1) (
        n,
        moved_consumer np nc k s n inv has_item _ _ _ lt (rw at (omega (arith, v.0))) (rw at)
            (rw at),
      )
  consumer_step-Goes has_item at lt e =
      let v = take_one-some s.item_mutex _ s' (rw (consumer_step, at) at e) in
      subst (Goes np nc) (v.1) (
        n,
        moved_consumer np nc k s n inv inside _ _ _ lt (rw at) (rw at) (rw at (omega (arith, v.0))),
      )
  consumer_step-Goes inside at lt e =
      let goes = some_inj (rw (consumer_step, at) at e) in
      let held : holds_item (s.consumer k) ≡ 1 = rw at in
      let some_items : n ≡ suc (n - 1) =
        omega (arith, inv.full, weight-le holds_item s.consumer nc k lt, held) in
      subst (Goes np nc) goes
        (n - 1, remove_item-IsInOrder np nc k s n inv (n - 1) some_items lt at)
  consumer_step-Goes took at lt e =
      let goes = some_inj (rw (consumer_step, at) at e) in
      subst (Goes np nc) goes
        (n, moved_consumer np nc k s n inv leaving _ _ _ lt (rw at) (rw at) (rw at (omega arith)))
  consumer_step-Goes leaving at lt e =
      let goes = some_inj (rw (consumer_step, at) at e) in
      subst (Goes np nc) goes
        (n, moved_consumer np nc k s n inv idle _ _ _ lt (rw at) (rw at (omega arith)) (rw at))

-- The process of the step is one of those that there are.
abbrev pub IsHere : ℕ → ℕ → Turn → Type 0
IsHere np nc (of_producer k) = k < np
IsHere np nc (of_consumer k) = k < nc

turn-Goes :
    (np nc : ℕ) (t : Turn) (s s' : Market) (n : ℕ)
    → IsInOrder np nc s n
    → IsHere np nc t
    → turn t s ≡ some s'
    → Goes np nc s'
unfolding turn
turn-Goes np nc (of_producer k) s s' n inv here e =
    producer_step-Goes np nc k s s' n inv (s.producer k) refl here e
turn-Goes np nc (of_consumer k) s s' n inv here e =
    consumer_step-Goes np nc k s s' n inv (s.consumer k) refl here e

pub run-Goes :
    (np nc : ℕ) (turns : List Turn) (s : Market) (n : ℕ)
    → All (IsHere np nc) turns
    → IsInOrder np nc s n
    → Goes np nc (run turns s)
unfolding run
run-Goes np nc [] s n here inv = (n, inv)
run-Goes np nc (t ∷ turns) s n here inv = elim (Option-cases (turn t s)) [
  | inl blocked ↦ rw (run, blocked) (run-Goes np nc turns s n here.1 inv)
  | inr (s', goes) ↦
      let v = turn-Goes np nc t s s' n inv here.0 goes in
      rw (run, goes) (run-Goes np nc turns s' (v.0) here.1 (v.1))
]

pub prod_cons-IsInOrder :
    (np nc : ℕ) (buffer : List ℕ)
    → length buffer ≡ buffer_size
    → IsInOrder np nc (prod_cons buffer) 0
prod_cons-IsInOrder np nc buffer size = record {
  places = size;
  reads = omega arith;
  writes = omega arith;
  after = omega arith;
  full = omega (arith, sum_zero has_put resting np refl, sum_zero holds_item idle nc refl);
  empty = omega (arith, sum_zero holds_slot resting np refl, sum_zero has_got idle nc refl);
  one =
      omega
        (arith, sum_zero produces_inside resting np refl, sum_zero consumes_inside idle nc refl);
  order = refl;
}

-- Whatever the order of the steps of any producers and consumers, what has been taken from the
-- buffer and what is in it make up what has been put into it, in order; at most 50 items are in it,
-- and of the producers and consumers at most one is at the buffer.
pub run_fifo :
    (np nc : ℕ) (turns : List Turn) (buffer : List ℕ)
    → length buffer ≡ buffer_size
    → All (IsHere np nc) turns
    → let s = run turns (prod_cons buffer) in
      (n : ℕ) × (s.put ≡ s.got ++ window s.buffer buffer_size s.r n)
      × (n ≤ buffer_size)
      × (sum produces_inside s.producer np + sum consumes_inside s.consumer nc ≤ 1)
run_fifo np nc turns buffer size here =
    let v =
      run-Goes np nc turns (prod_cons buffer) 0 here (prod_cons-IsInOrder np nc buffer size) in
    let inv : IsInOrder np nc (run turns (prod_cons buffer)) (v.0) = v.1 in
    (v.0, inv.order, omega (arith, inv.empty), omega (arith, inv.one))
