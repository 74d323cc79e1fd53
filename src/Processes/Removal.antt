-- ===== src/Processes/Removal.antt =====
-- Kernel/scheduler.c, `removeProcess`: the ring without a process.
use mathlib.Core.Path.{subst}
use sistemas_operativos.Base.{
  ℕ, zero, suc, ◌+◌, ◌-◌, ◌^◌, ◌≤◌, ◌<◌, ◌≡◌, ◌≢◌, refl, sym, ap, ◌∙◌, arith, List, [], ◌∷◌, ◌++◌,
  get_or, drop, false, ◌==◌, ==_ne, ==_self, Bool-cases, inl, inr, update, update_self, update_ne,
  some, sub32,
}
use sistemas_operativos.Scheduler.{Sched, Slot, process_of, null}
use sistemas_operativos.Scheduler.Ring.{walk, ring, walk-update, All}
use sistemas_operativos.Heap.{Heap}
use sistemas_operativos.Processes.{remove_loop, remove_process, unlink, eq_process, on_sched}

uncons : {x y : ℕ} {xs ys : List ℕ} → x ∷ xs ≡ y ∷ ys → (x ≡ y) × (xs ≡ ys)
uncons {x} e = (ap (λ (l : List ℕ). get_or l 0 x) e, ap (λ (l : List ℕ). drop 1 l) e)

-- No slot of the list is that of a process with the pid.
abbrev pub IsWithout : Sched → ℕ → List ℕ → Type 0
IsWithout s pid l = All (λ slot. (process_of s slot).pid ≢ pid) l

head_of :
    (s : Sched) (pid n a prev : ℕ) (before after : List ℕ)
    → walk s.slots n a ≡ before ++ prev ∷ after
    → IsWithout s pid (before ++ prev ∷ [])
    → (process_of s a).pid ≢ pid
head_of s pid zero a prev [] after e h = absurd (cc e)
head_of s pid zero a prev (b ∷ before) after e h = absurd (cc e)
head_of s pid (suc n) a prev [] after e h =
    subst (λ x. (process_of s x).pid ≢ pid) (sym ((uncons e).0)) (h.0)
head_of s pid (suc n) a prev (b ∷ before) after e h =
    subst (λ x. (process_of s x).pid ≢ pid) (sym ((uncons e).0)) (h.0)

walk-some :
    (m : ℕ → Slot) (n a prev : ℕ) (before after : List ℕ)
    → walk m n a ≡ before ++ prev ∷ after
    → 0 < n
walk-some m zero a prev [] after e = absurd (cc e)
walk-some m zero a prev (b ∷ before) after e = absurd (cc e)
walk-some m (suc n) a prev before after e = omega arith

remove_loop-finds :
    (s : Sched) (pid n rounds a prev slot : ℕ) (before after : List ℕ)
    → walk s.slots n a ≡ before ++ prev ∷ slot ∷ after
    → n ≤ rounds
    → IsWithout s pid (before ++ prev ∷ [])
    → (process_of s slot).pid ≡ pid
    → remove_loop rounds a (s.slots a).next pid s ≡ some (prev, slot)
unfolding remove_loop
remove_loop-finds s pid zero rounds a prev slot [] after e le h hit = absurd (cc e)
remove_loop-finds s pid zero rounds a prev slot (b ∷ before) after e le h hit = absurd (cc e)
remove_loop-finds s pid (suc n) zero a prev slot before after e le h hit = absurd (omega arith)
remove_loop-finds s pid (suc zero) (suc rounds) a prev slot [] after e le h hit =
    absurd (cc (uncons e).1)
remove_loop-finds s pid (suc (suc n)) (suc rounds) a prev slot [] after e le h hit =
    let q = uncons e in
    let r = uncons (q.1) in rw (r.0, hit, ==_self pid) (ap (λ (x : ℕ). some (x, slot)) (q.0))
remove_loop-finds s pid (suc n) (suc rounds) a prev slot (b ∷ before) after e le h hit =
    let next = (uncons e).1 in
    let miss : ((process_of s (s.slots a).next).pid == pid) ≡ false =
      ==_ne (process_of s (s.slots a).next).pid pid
        (head_of s pid n (s.slots a).next prev before (slot ∷ after) next h.1) in
    rw miss (
      remove_loop-finds s pid n rounds (s.slots a).next prev slot before after next (omega arith)
        h.1 hit)

walk-unlink :
    (m : ℕ → Slot) (n a prev slot : ℕ) (v : Slot) (before after : List ℕ)
    → walk m (suc n) a ≡ before ++ prev ∷ slot ∷ after
    → v.next ≡ (m slot).next
    → All (λ y. prev ≢ y) before
    → All (λ y. prev ≢ y) after
    → walk (update m prev v) n a ≡ before ++ prev ∷ after
walk-unlink m zero a prev slot v [] after e next front rest = absurd (cc (uncons e).1)
walk-unlink m zero a prev slot v (b ∷ []) after e next front rest = absurd (cc (uncons e).1)
walk-unlink m zero a prev slot v (b ∷ c ∷ before) after e next front rest = absurd (cc (uncons e).1)
walk-unlink m (suc n) a prev slot v [] after e next front rest =
    let q = uncons e in
    let r = uncons (q.1) in
    let there : (update m prev v prev).next ≡ (m slot).next =
      ap (λ (x : Slot). x.next) (update_self m prev v) ∙ next in
    let tail : walk m n (m slot).next ≡ after =
      ap (λ (x : ℕ). walk m n (m x).next) (sym (r.0)) ∙ r.1 in
    let same = walk-update m prev v n (m slot).next (subst (All (λ y. prev ≢ y)) (sym tail) rest) in
    rw (q.0, there, same, tail)
walk-unlink m (suc n) a prev slot v (b ∷ before) after e next front rest =
    let q = uncons e in
    let other : update m prev v a ≡ m a = update_ne m prev a v (λ z. front.0 (z ∙ q.0)) in
    rw (other, walk-unlink m n (m a).next prev slot v before after (q.1) next front.1 rest)
      (ap (λ (x : ℕ). x ∷ before ++ prev ∷ after) (q.0))

-- `removeProcess` of a pid other than 0, whose first slot along the ring is `slot` and not the
-- current one, takes that slot out of the ring: the other slots are in the ring in the same order,
-- the current one stays, the number of processes is one less, and the processor is not given up.
-- The ring holds the slot in front of it once.
pub remove_process-ring :
    (pid prev slot : ℕ) (before after : List ℕ) (h : Heap)
    → pid ≢ 0
    → h.sched.current ≢ null
    → h.sched.cardinal_processes < 2 ^ 31
    → ring h.sched ≡ before ++ prev ∷ slot ∷ after
    → All (λ y. prev ≢ y) before
    → All (λ y. prev ≢ y) after
    → IsWithout h.sched pid (before ++ prev ∷ [])
    → (process_of h.sched slot).pid ≡ pid
    → (s : Sched) × (remove_process pid h ≡ some (false, on_sched s h))
      × (ring s ≡ before ++ prev ∷ after)
      × (s.current ≡ h.sched.current)
      × (s.cardinal_processes + 1 ≡ h.sched.cardinal_processes)
unfolding remove_process
remove_process-ring pid prev slot before after h some_pid some_current small e front rest without
      hit =
    let s : Sched = h.sched in
    let n : ℕ = s.cardinal_processes in
    let here = head_of s pid n s.current prev before (slot ∷ after) e without in
    let found =
      remove_loop-finds s pid n n s.current prev slot before after e (omega arith) without hit in
    let c₁ : (pid == 0) ≡ false = ==_ne pid 0 some_pid in
    let c₂ : (s.current == null) ≡ false = ==_ne s.current null some_current in
    let c₃ : ((process_of s s.current).pid == pid) ≡ false =
      ==_ne (process_of s s.current).pid pid here in
    let c₄ : eq_process (process_of s slot) (process_of s s.current) ≡ false =
      ==_ne (process_of s slot).pid (process_of s s.current).pid (λ q. here (sym q ∙ hit)) in
    let some_slots = walk-some s.slots n s.current prev before (slot ∷ after) e in
    let less : sub32 n 1 ≡ n - 1 = omega (arith, some_slots) in
    let more : suc (n - 1) ≡ n = omega (arith, some_slots) in
    let e' = subst (λ k. walk s.slots k s.current ≡ before ++ prev ∷ slot ∷ after) (sym more) e in
    let v : Slot = record (s.slots prev) { next = (s.slots slot).next } in
    (
      unlink prev slot s,
      rw (c₁, c₂)
          (elim (Bool-cases
            (eq_process (process_of s s.current) (process_of s (s.slots s.current).next))) [
              | inl same ↦ rw (same, c₃, found, c₄)
              | inr apart ↦ rw (apart, found, c₄)
            ]),
      rw less (walk-unlink s.slots (n - 1) s.current prev slot v before after e' refl front rest),
      refl,
      omega (arith, some_slots),
    )
