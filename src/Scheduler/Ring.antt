-- ===== src/Scheduler/Ring.antt =====
-- Kernel/scheduler.c: the slots that lie along `next`, as lists.
use sistemas_operativos.Base.{
  ℕ, zero, suc, ◌≡◌, ◌≢◌, refl, ap, List, [], ◌∷◌, update, length, update_ne,
}
use sistemas_operativos.Scheduler.{Slot, Sched}

-- The slot `n` places after `a`.
abbrev pub jump : (ℕ → Slot) → ℕ → ℕ → ℕ
jump m zero a = a
jump m (suc n) a = jump m n (m a).next

-- The `n` slots from `a` on.
abbrev pub walk : (ℕ → Slot) → ℕ → ℕ → List ℕ
walk m zero a = []
walk m (suc n) a = a ∷ walk m n (m a).next

-- The slots of the ring, the current one first.
abbrev pub ring : Sched → List ℕ
ring s = walk s.slots s.cardinal_processes s.current

-- The processes along a list of slots.
abbrev pub addresses : (ℕ → Slot) → List ℕ → List ℕ
addresses m [] = []
addresses m (a ∷ l) = (m a).process ∷ addresses m l

abbrev pub All {ℓ κ} : {A : Type ℓ} → (A → Type κ) → List A → Type κ
All P [] = Unit
All P (x ∷ xs) = P x × All P xs

pub length-walk : (m : ℕ → Slot) (n a : ℕ) → length (walk m n a) ≡ n
length-walk m zero a = refl
length-walk m (suc n) a = ap suc (length-walk m n (m a).next)

-- A write to a slot that is not on the way changes nothing on the way.
pub walk-update :
    (m : ℕ → Slot) (x : ℕ) (v : Slot) (n a : ℕ)
    → All (λ y. x ≢ y) (walk m n a)
    → walk (update m x v) n a ≡ walk m n a
walk-update m x v zero a h = refl
walk-update m x v (suc n) a h =
    ap (◌∷◌ a) (rw (update_ne m x a v h.0) (walk-update m x v n (m a).next h.1))

pub addresses-update :
    (m : ℕ → Slot) (x : ℕ) (v : Slot) (l : List ℕ)
    → All (λ y. x ≢ y) l
    → addresses (update m x v) l ≡ addresses m l
addresses-update m x v [] h = refl
addresses-update m x v (a ∷ l) h = rw (update_ne m x a v h.0, addresses-update m x v l h.1)
