-- ===== src/Market/Progress.antt =====
-- Userland/dummy/dummy.c: producers and consumers never all wait for each other.
use sistemas_operativos.Base.{
  ℕ, ◌+◌, ◌≤◌, ◌<◌, ◌≡◌, ◌≢◌, ◌⊎◌, refl, arith, List, length, Bool, true, false, inl, inr, Option,
  none, some, ℕ_discrete, ==_ne,
}
use sistemas_operativos.Market.{
  Market, Producer, Consumer, Turn, buffer_size, prod_cons, producer_step, consumer_step, turn, run,
  resting, inserted, released, made, has_slot, entered, idle, has_item, inside, took, leaving,
  of_producer, of_consumer,
}
use sistemas_operativos.Market.Sums.{sum, sum_part}
use sistemas_operativos.Scheduler.Ring.{All}
use sistemas_operativos.Market.Order.{
  holds_slot, has_put, produces_inside, holds_item, has_got, consumes_inside, IsInOrder,
}
use sistemas_operativos.Market.Steps.{IsHere, run-Goes, prod_cons-IsInOrder}

abbrev is_some : Option Market → Bool
is_some none = false
is_some (some s) = true

some_of : (o : Option Market) → is_some o ≡ true → (s : Market) × (o ≡ some s)
some_of none e = absurd (cc e)
some_of (some s) e = (s, refl)

-- With the buffer free, a producer can take a step if there is a slot, or if it has one.
producer_goes :
    (k : ℕ) (s : Market) (p : Producer)
    → s.producer k ≡ p
    → s.item_mutex ≢ 0
    → (s.empty_count ≢ 0) ⊎ (holds_slot p + has_put p ≢ 0)
    → is_some (producer_step k s) ≡ true
unfolding producer_step
producer_goes k s resting at free some_slot = rw (producer_step, at)
producer_goes k s (made item) at free (inl slot) =
    rw (producer_step, at, ==_ne s.empty_count 0 slot)
producer_goes k s (made item) at free (inr slot) = absurd (slot refl)
producer_goes k s (has_slot item) at free some_slot =
    rw (producer_step, at, ==_ne s.item_mutex 0 free)
producer_goes k s (entered item) at free some_slot = rw (producer_step, at)
producer_goes k s inserted at free some_slot = rw (producer_step, at)
producer_goes k s released at free some_slot = rw (producer_step, at)

consumer_goes :
    (k : ℕ) (s : Market) (c : Consumer)
    → s.consumer k ≡ c
    → s.item_mutex ≢ 0
    → (s.full_count ≢ 0) ⊎ (holds_item c + has_got c ≢ 0)
    → is_some (consumer_step k s) ≡ true
unfolding consumer_step
consumer_goes k s idle at free (inl item) = rw (consumer_step, at, ==_ne s.full_count 0 item)
consumer_goes k s idle at free (inr item) = absurd (item refl)
consumer_goes k s has_item at free some_item = rw (consumer_step, at, ==_ne s.item_mutex 0 free)
consumer_goes k s inside at free some_item = rw (consumer_step, at)
consumer_goes k s took at free some_item = rw (consumer_step, at)
consumer_goes k s leaving at free some_item = rw (consumer_step, at)

-- Whoever is at the buffer can take a step.
producer_leaves :
    (k : ℕ) (s : Market) (p : Producer)
    → s.producer k ≡ p
    → produces_inside p ≢ 0
    → is_some (producer_step k s) ≡ true
unfolding producer_step
producer_leaves k s (entered item) at within = rw (producer_step, at)
producer_leaves k s inserted at within = rw (producer_step, at)
producer_leaves k s resting at within = absurd (within refl)
producer_leaves k s (made item) at within = absurd (within refl)
producer_leaves k s (has_slot item) at within = absurd (within refl)
producer_leaves k s released at within = absurd (within refl)

consumer_leaves :
    (k : ℕ) (s : Market) (c : Consumer)
    → s.consumer k ≡ c
    → consumes_inside c ≢ 0
    → is_some (consumer_step k s) ≡ true
unfolding consumer_step
consumer_leaves k s inside at within = rw (consumer_step, at)
consumer_leaves k s took at within = rw (consumer_step, at)
consumer_leaves k s idle at within = absurd (within refl)
consumer_leaves k s has_item at within = absurd (within refl)
consumer_leaves k s leaving at within = absurd (within refl)

abbrev CanGo : ℕ → ℕ → Market → Type 0
CanGo np nc s = (t : Turn) × IsHere np nc t × (is_some (turn t s) ≡ true)

module _ (np nc : ℕ) (s : Market) (n : ℕ) (inv : IsInOrder np nc s n)
    (free : s.item_mutex ≢ 0) where
  by_producer :
      (weight : Producer → ℕ)
      → ((p : Producer) → weight p ≤ holds_slot p + has_put p)
      → sum weight s.producer np ≢ 0
      → CanGo np nc s
  unfolding turn
  by_producer weight le ne =
      let v = sum_part weight s.producer np ne in
      (
        of_producer (v.0),
        v.1,
        producer_goes (v.0) s (s.producer (v.0)) refl free
            (inr (λ e. v.2 (omega (arith, e, le (s.producer (v.0)))))),
      )

  by_consumer :
      (weight : Consumer → ℕ)
      → ((c : Consumer) → weight c ≤ holds_item c + has_got c)
      → sum weight s.consumer nc ≢ 0
      → CanGo np nc s
  unfolding turn
  by_consumer weight le ne =
      let v = sum_part weight s.consumer nc ne in
      (
        of_consumer (v.0),
        v.1,
        consumer_goes (v.0) s (s.consumer (v.0)) refl free
            (inr (λ e. v.2 (omega (arith, e, le (s.consumer (v.0)))))),
      )

  when_free : 0 < np → 0 < nc → CanGo np nc s
  unfolding turn
  when_free some_producer some_consumer = elim (ℕ_discrete s.empty_count 0) [
    | no slot ↦
        (of_producer 0, some_producer, producer_goes 0 s (s.producer 0) refl free (inl slot))
    | yes no_slot ↦ elim (ℕ_discrete (sum holds_slot s.producer np) 0) [
      | no holder ↦ by_producer holds_slot (λ p. omega arith) holder
      | yes no_holder ↦ elim (ℕ_discrete (sum has_got s.consumer nc) 0) [
        | no getter ↦ by_consumer has_got (λ c. omega arith) getter
        | yes no_getter ↦ elim (ℕ_discrete (sum has_put s.producer np) 0) [
          | no putter ↦ by_producer has_put (λ p. omega arith) putter
          | yes no_putter ↦ elim (ℕ_discrete (sum holds_item s.consumer nc) 0) [
            | no taker ↦ by_consumer holds_item (λ c. omega arith) taker
            | yes no_taker ↦ (
              of_consumer 0,
              some_consumer,
              consumer_goes 0 s (s.consumer 0) refl free (
                  inl (λ e. omega (
                    arith, e, inv.full, inv.empty, no_slot, no_holder, no_getter, no_putter,
                    no_taker,
                  ))),
            )
          ]
        ]
      ]
    ]
  ]

can_go : (np nc : ℕ) (s : Market) (n : ℕ) → IsInOrder np nc s n → 0 < np → 0 < nc → CanGo np nc s
unfolding turn
can_go np nc s n inv some_producer some_consumer = elim (ℕ_discrete s.item_mutex 0) [
  | no free ↦ when_free np nc s n inv free some_producer some_consumer
  | yes busy ↦ elim (ℕ_discrete (sum produces_inside s.producer np) 0) [
    | no within ↦
        let v = sum_part produces_inside s.producer np within in
        (of_producer (v.0), v.1, producer_leaves (v.0) s (s.producer (v.0)) refl v.2)
    | yes no_producer ↦
        let v =
          sum_part consumes_inside s.consumer nc
            (λ e. omega (arith, e, inv.one, busy, no_producer)) in
        (of_consumer (v.0), v.1, consumer_leaves (v.0) s (s.consumer (v.0)) refl v.2)
  ]
]

-- With a producer and a consumer at least, after any order of steps some process can take a step.
pub run_goes_on :
    (np nc : ℕ) (turns : List Turn) (buffer : List ℕ)
    → length buffer ≡ buffer_size
    → All (IsHere np nc) turns
    → 0 < np
    → 0 < nc
    → (t : Turn) × IsHere np nc t
      × (s' : Market) × (turn t (run turns (prod_cons buffer)) ≡ some s')
run_goes_on np nc turns buffer size here some_producer some_consumer =
    let v =
      run-Goes np nc turns (prod_cons buffer) 0 here (prod_cons-IsInOrder np nc buffer size) in
    let w = can_go np nc (run turns (prod_cons buffer)) (v.0) (v.1) some_producer some_consumer in
    let x = some_of (turn (w.0) (run turns (prod_cons buffer))) (w.2) in (w.0, w.1, x.0, x.1)
