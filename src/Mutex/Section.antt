-- ===== src/Mutex/Section.antt =====
-- Kernel/mutex.c: a free mutex that is taken and given back around other code.
use sistemas_operativos.Base.{
  ℕ, ◌≡◌, refl, ap₂, arith, inl, inr, true, ◌==◌, ==_self, ==_iff, Bool-cases, update, sym,
}
use sistemas_operativos.Scheduler.{Sched}
use sistemas_operativos.Mutex.Lock.{IsSound, free_mutex-opens}
use sistemas_operativos.Mutex.{World, set_mutex, is_valid_mutex, free_mutex}

-- The world with mutex `k` taken by the caller, and another state of the processes.
abbrev pub taken : ℕ → Sched → World → World
taken k sched w = record w {
  sched = sched;
  mutexes = update w.mutexes k (record (w.mutexes k) { mutex = 1; cardinal_blocked = 0 });
}

module _ (k : ℕ) (w : World) (valid : is_valid_mutex k w ≡ true) (v : IsSound (w.mutexes k))
    (free : (w.mutexes k).mutex ≡ 0) where
  pub locked-IsSound : IsSound (record (w.mutexes k) { mutex = 1; cardinal_blocked = 0 })
  locked-IsSound = record {
    sized = v.sized;
    counted = omega (arith, v.counted, v.held free);
    bit = omega arith;
    held = λ z. refl;
  }

  pub free_mutex-taken :
      (sched : Sched)
      → free_mutex k (taken k sched w)
        ≡ set_mutex k (record ((taken k sched w).mutexes k) { mutex = 0 }) (taken k sched w)
  free_mutex-taken sched =
      free_mutex-opens k (taken k sched w) (rw (==_self k) valid) (rw (==_self k) locked-IsSound)
        (rw (==_self k))

  -- Taking a free mutex and giving it back changes no mutex.
  pub taken-mutexes :
      (sched : Sched) (j : ℕ) → (free_mutex k (taken k sched w)).mutexes j ≡ w.mutexes j
  taken-mutexes sched j = elim (Bool-cases (k == j)) [
    | inl same ↦
        let e : k ≡ j = (==_iff k j).0 same in
        rw (free_mutex-taken sched, same, ==_self k, sym e)
          (ap₂ (λ (a b : ℕ). record (w.mutexes k) { mutex = a; cardinal_blocked = b }) (sym free)
            (sym (v.held free)))
    | inr other ↦ rw (free_mutex-taken sched, other)
  ]
