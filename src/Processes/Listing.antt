-- ===== src/Processes/Listing.antt =====
-- Kernel/scheduler.c, `getCurrentProcesses`: what it writes into the pages it takes.
use sistemas_operativos.Base.{
  ℕ, zero, suc, ◌+◌, ◌*◌, ◌≡◌, refl, ap, ◌∙◌, arith, List, [], ◌∷◌, length, take,
}
use sistemas_operativos.Buddy.{alloc_page, number_of_pages_to_alloc}
use sistemas_operativos.Scheduler.{Sched, Slot}
use sistemas_operativos.Scheduler.Ring.{walk, ring, addresses}

-- The loop, with the rounds left: the processes from a slot on.
pub processes_loop : ℕ → ℕ → Sched → List ℕ
processes_loop zero aux s = []
processes_loop (suc n) aux s = (s.slots aux).process ∷ processes_loop n (s.slots aux).next s

-- The entries that are written, the number of processes, and the scheduler without the pages taken.
unfoldable pub get_current_processes : Sched → List ℕ × ℕ × Sched
unfolding processes_loop
get_current_processes s =
    let (page, heap) = alloc_page (number_of_pages_to_alloc (s.cardinal_processes * 8)) s.heap in
    let first = (s.slots s.current).process in
    (
      first ∷ processes_loop s.cardinal_processes (s.slots s.current).next s,
      s.cardinal_processes,
      record s { heap = heap },
    )

processes_loop-addresses :
    (n aux : ℕ) (s : Sched) → processes_loop n aux s ≡ addresses s.slots (walk s.slots n aux)
unfolding processes_loop
processes_loop-addresses zero aux s = refl
processes_loop-addresses (suc n) aux s =
    ap (λ (l : List ℕ). (s.slots aux).process ∷ l) (processes_loop-addresses n (s.slots aux).next s)

length-processes_loop : (n aux : ℕ) (s : Sched) → length (processes_loop n aux s) ≡ n
unfolding processes_loop
length-processes_loop zero aux s = refl
length-processes_loop (suc n) aux s = ap suc (length-processes_loop n (s.slots aux).next s)

take-walk :
    (m : ℕ → Slot) (n a : ℕ) → take n (addresses m (walk m (suc n) a)) ≡ addresses m (walk m n a)
take-walk m zero a = refl
take-walk m (suc n) a = ap (λ (l : List ℕ). (m a).process ∷ l) (take-walk m n (m a).next)

-- The first entries that `getCurrentProcesses` writes are the processes of the ring in their order,
-- as many as it reports, and it writes one entry more.
get_current_processes_lem :
    (s : Sched)
    → (take s.cardinal_processes (get_current_processes s).0 ≡ addresses s.slots (ring s))
      × (length (get_current_processes s).0 ≡ s.cardinal_processes + 1)
unfolding get_current_processes
get_current_processes_lem s = (
  ap (take s.cardinal_processes) (
        ap (λ (l : List ℕ). (s.slots s.current).process ∷ l)
          (processes_loop-addresses s.cardinal_processes (s.slots s.current).next s))
      ∙ take-walk s.slots s.cardinal_processes s.current,
  omega (arith, length-processes_loop s.cardinal_processes (s.slots s.current).next s),
)
