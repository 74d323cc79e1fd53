-- ===== src/Market/Order.antt =====
-- Userland/dummy/dummy.c: what holds between two steps of producers and consumers.
use mathlib.Core.Path.{subst}
use sistemas_operativos.Base.{
  ℕ, suc, ◌+◌, ◌%◌, ◌<◌, ◌≡◌, sym, ap, ◌∙◌, arith, List, [], ◌∷◌, ◌++◌, append_assoc, length,
  length-set, get_or,
}
use sistemas_operativos.Base.Window.{window, window-set, IsAfter, bump}
use sistemas_operativos.Market.{
  Market, Producer, Consumer, buffer_size, insert_item, remove_item, at_producer, at_consumer,
  inserted, released, has_slot, entered, has_item, inside, took, leaving,
}
use sistemas_operativos.Market.Sums.{sum, sum-update}

-- A slot is taken and nothing put there yet.
abbrev pub holds_slot : Producer → ℕ
holds_slot (has_slot item) = 1
holds_slot (entered item) = 1
holds_slot _ = 0

-- An item is put and not counted yet.
abbrev pub has_put : Producer → ℕ
has_put inserted = 1
has_put released = 1
has_put _ = 0

abbrev pub produces_inside : Producer → ℕ
produces_inside (entered item) = 1
produces_inside inserted = 1
produces_inside _ = 0

abbrev pub holds_item : Consumer → ℕ
holds_item has_item = 1
holds_item inside = 1
holds_item _ = 0

abbrev pub has_got : Consumer → ℕ
has_got took = 1
has_got leaving = 1
has_got _ = 0

abbrev pub consumes_inside : Consumer → ℕ
consumes_inside inside = 1
consumes_inside took = 1
consumes_inside _ = 0

-- With `np` producers and `nc` consumers, `n` items are in the buffer.
pub record IsInOrder (np nc : ℕ) (s : Market) (n : ℕ) : Type 0 where
  pub places : length s.buffer ≡ buffer_size
  pub reads : s.r < buffer_size
  pub writes : s.w < buffer_size
  pub after : IsAfter buffer_size s.r n s.w
  pub full : n ≡ s.full_count + sum has_put s.producer np + sum holds_item s.consumer nc
  pub empty :
      s.empty_count + sum holds_slot s.producer np + n + sum has_got s.consumer nc ≡ buffer_size
  pub one : s.item_mutex + sum produces_inside s.producer np + sum consumes_inside s.consumer nc ≡ 1
  pub order : s.put ≡ s.got ++ window s.buffer buffer_size s.r n

module _ (np nc : ℕ) (k : ℕ) (s : Market) (n : ℕ) (inv : IsInOrder np nc s n) where
  -- A producer that changes place, with the semaphores that change with it.
  pub moved_producer :
      (p : Producer) (i mutex full empty : ℕ)
      → k < np
      → full + has_put p ≡ s.full_count + has_put (s.producer k)
      → empty + holds_slot p ≡ s.empty_count + holds_slot (s.producer k)
      → mutex + produces_inside p ≡ s.item_mutex + produces_inside (s.producer k)
      → IsInOrder np nc
          (at_producer k p
            (record s { i = i; item_mutex = mutex; full_count = full; empty_count = empty }))
          n
  moved_producer p i mutex full empty lt f e m =
      let a = sum-update has_put s.producer np k p lt in
      let b = sum-update holds_slot s.producer np k p lt in
      let c = sum-update produces_inside s.producer np k p lt in
      record {
        places = inv.places;
        reads = inv.reads;
        writes = inv.writes;
        after = inv.after;
        full = omega (arith, inv.full, a, f);
        empty = omega (arith, inv.empty, b, e);
        one = omega (arith, inv.one, c, m);
        order = inv.order;
      }

  pub moved_consumer :
      (c : Consumer) (mutex full empty : ℕ)
      → k < nc
      → full + holds_item c ≡ s.full_count + holds_item (s.consumer k)
      → empty + has_got c ≡ s.empty_count + has_got (s.consumer k)
      → mutex + consumes_inside c ≡ s.item_mutex + consumes_inside (s.consumer k)
      → IsInOrder np nc
          (at_consumer k c
            (record s { item_mutex = mutex; full_count = full; empty_count = empty }))
          n
  moved_consumer p mutex full empty lt f e m =
      let a = sum-update holds_item s.consumer nc k p lt in
      let b = sum-update has_got s.consumer nc k p lt in
      let c = sum-update consumes_inside s.consumer nc k p lt in
      record {
        places = inv.places;
        reads = inv.reads;
        writes = inv.writes;
        after = inv.after;
        full = omega (arith, inv.full, a, f);
        empty = omega (arith, inv.empty, b, e);
        one = omega (arith, inv.one, c, m);
        order = inv.order;
      }

  pub insert_item-IsInOrder :
      (item c : ℕ)
      → k < np
      → s.producer k ≡ entered item
      → IsInOrder np nc (at_producer k inserted (insert_item c s)) (suc n)
  unfolding insert_item
  insert_item-IsInOrder item c lt at =
      let a = sum-update has_put s.producer np k inserted lt in
      let b = sum-update holds_slot s.producer np k inserted lt in
      let d = sum-update produces_inside s.producer np k inserted lt in
      let had_none : has_put (s.producer k) ≡ 0 = rw at in
      let held : holds_slot (s.producer k) ≡ 1 = rw at in
      let within : produces_inside (s.producer k) ≡ 1 = rw at in
      let room : n < buffer_size = omega (arith, inv.empty, b, held) in
      record {
        places = length-set s.buffer s.w c ∙ inv.places;
        reads = inv.reads;
        writes = omega arith;
        after = ground (arith, inv.after, inv.writes, inv.reads);
        full = omega (arith, inv.full, a, had_none);
        empty = omega (arith, inv.empty, b, held);
        one = omega (arith, inv.one, d, within);
        order =
            ap (λ (l : List ℕ). l ++ c ∷ []) inv.order
            ∙ append_assoc s.got (window s.buffer buffer_size s.r n) (c ∷ [])
            ∙ ap (λ (l : List ℕ). s.got ++ l)
                (sym (
                  window-set s.buffer buffer_size c n s.r s.w (omega (arith, inv.places)) inv.reads
                    inv.writes room inv.after));
      }

  pub remove_item-IsInOrder :
      (m : ℕ)
      → n ≡ suc m
      → k < nc
      → s.consumer k ≡ inside
      → IsInOrder np nc (at_consumer k took ((remove_item s).1)) m
  unfolding remove_item
  remove_item-IsInOrder m some_items lt at =
      let a = sum-update holds_item s.consumer nc k took lt in
      let b = sum-update has_got s.consumer nc k took lt in
      let d = sum-update consumes_inside s.consumer nc k took lt in
      let held : holds_item (s.consumer k) ≡ 1 = rw at in
      let had_none : has_got (s.consumer k) ≡ 0 = rw at in
      let within : consumes_inside (s.consumer k) ≡ 1 = rw at in
      let next : (s.r + 1) % buffer_size ≡ bump buffer_size s.r = ground (arith, inv.reads) in
      let whole =
        subst (λ x. s.put ≡ s.got ++ window s.buffer buffer_size s.r x) some_items inv.order in
      record {
        places = inv.places;
        reads = omega arith;
        writes = inv.writes;
        after = ground (arith, inv.after, inv.writes, inv.reads, some_items);
        full = omega (arith, inv.full, a, held, some_items);
        empty = omega (arith, inv.empty, b, had_none, some_items);
        one = omega (arith, inv.one, d, within);
        order = rw next (
            whole
            ∙ sym (
                append_assoc s.got (get_or s.buffer s.r 0 ∷ [])
                  (window s.buffer buffer_size (bump buffer_size s.r) m)));
      }
