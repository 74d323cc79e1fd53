-- ===== src/Market.antt =====
-- Userland/dummy/dummy.c: producers and consumers around a buffer of 50 characters. Every call of
-- `wait` or `signal` and every use of the buffer is a step; a semaphore is how many calls of `wait`
-- it lets pass. What is printed and the calls of `sleep` are left out.
pub mod Sums
pub mod Order
pub mod Steps
pub mod Progress
pub mod Control
pub mod Tests
use sistemas_operativos.Base.{
  ℕ, zero, suc, ◌+◌, ◌-◌, ◌%◌, ◌^◌, List, [], ◌∷◌, ◌++◌, Bool, true, false, if◌then◌else◌, ◌==◌,
  get_or, set, add32, update, Option, none, some,
}

abbrev pub buffer_size : ℕ
buffer_size = 50

-- Where a producer is in its loop, with the item it has made: before it, in front of the wait for a
-- slot, of the wait for the buffer, of `insertItem`, of the first and of the second `signal`.
pub data Producer : Type 0 where
  resting inserted released : Producer
  made has_slot entered : ℕ → Producer

-- A consumer: in front of the wait for an item, of the wait for the buffer, of `removeItem`, of the
-- first and of the second `signal`.
pub data Consumer : Type 0 where
  idle has_item inside took leaving : Consumer

-- `put` and `got` keep what has been put into the buffer and taken from it, in order.
pub record Market : Type 0 where
  pub buffer : List ℕ
  pub r : ℕ
  pub w : ℕ
  pub i : ℕ
  pub item_mutex : ℕ
  pub full_count : ℕ
  pub empty_count : ℕ
  pub producer : ℕ → Producer
  pub consumer : ℕ → Consumer
  pub put : List ℕ
  pub got : List ℕ

unfoldable pub insert_item : ℕ → Market → Market
insert_item c s = record s {
  buffer = set s.buffer s.w c;
  w = (s.w + 1) % buffer_size;
  put = s.put ++ c ∷ [];
}

unfoldable pub remove_item : Market → ℕ × Market
remove_item s =
    let result = get_or s.buffer s.r 0 in
    (result, record s { r = (s.r + 1) % buffer_size; got = s.got ++ result ∷ [] })

-- What `prodCons` sets up, with the buffer as it lies in memory.
abbrev pub prod_cons : List ℕ → Market
prod_cons buffer = record {
  buffer = buffer;
  r = 0;
  w = 0;
  i = 0;
  item_mutex = 1;
  full_count = 0;
  empty_count = buffer_size;
  producer = λ k. resting;
  consumer = λ k. idle;
  put = [];
  got = [];
}

abbrev pub at_producer : ℕ → Producer → Market → Market
at_producer k p s = record s { producer = update s.producer k p }

abbrev pub at_consumer : ℕ → Consumer → Market → Market
at_consumer k c s = record s { consumer = update s.consumer k c }

-- A call of `wait` that comes back takes one away; `none` while there is nothing to take.
abbrev pub take_one : ℕ → Market → Option Market
take_one count s = if count == 0 then none else some s

-- The next step of producer `k`.
unfoldable pub producer_step : ℕ → Market → Option Market
unfolding insert_item
producer_step k s = elim (s.producer k) [
  | resting ↦ some (at_producer k (made s.i) (record s { i = add32 s.i 1 }))
  | made item ↦
      take_one s.empty_count
        (at_producer k (has_slot item) (record s { empty_count = s.empty_count - 1 }))
  | has_slot item ↦
      take_one s.item_mutex
        (at_producer k (entered item) (record s { item_mutex = s.item_mutex - 1 }))
  | entered item ↦ some (at_producer k inserted (insert_item (item % 2 ^ 8) s))
  | inserted ↦ some (at_producer k released (record s { item_mutex = s.item_mutex + 1 }))
  | released ↦ some (at_producer k resting (record s { full_count = s.full_count + 1 }))
]

unfoldable pub consumer_step : ℕ → Market → Option Market
unfolding remove_item
consumer_step k s = elim (s.consumer k) [
  | idle ↦
      take_one s.full_count (at_consumer k has_item (record s { full_count = s.full_count - 1 }))
  | has_item ↦
      take_one s.item_mutex (at_consumer k inside (record s { item_mutex = s.item_mutex - 1 }))
  | inside ↦ some (at_consumer k took ((remove_item s).1))
  | took ↦ some (at_consumer k leaving (record s { item_mutex = s.item_mutex + 1 }))
  | leaving ↦ some (at_consumer k idle (record s { empty_count = s.empty_count + 1 }))
]

pub data Turn : Type 0 where
  of_producer of_consumer : ℕ → Turn

unfoldable pub turn : Turn → Market → Option Market
unfolding producer_step consumer_step
turn (of_producer k) s = producer_step k s
turn (of_consumer k) s = consumer_step k s

-- Steps in any order; one that is blocked stays where it is.
unfoldable pub run : List Turn → Market → Market
unfolding turn
run [] s = s
run (t ∷ turns) s = elim (turn t s) [ none ↦ run turns s | some s' ↦ run turns s' ]
