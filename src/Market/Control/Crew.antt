-- ===== src/Market/Control/Crew.antt =====
-- Userland/dummy/dummy.c, `control`: the processes as two stacks.
use mathlib.Core.List.{reverse, reverse-cons}
use sistemas_operativos.Base.{
  ℕ, zero, suc, ◌+◌, ◌-◌, ◌≤◌, ◌≡◌, refl, sym, ap, ◌∙◌, arith, List, [], ◌∷◌, ◌++◌, append-nil,
  length, Bool, true, false, if◌then◌else◌, ◌==◌, leb, ltb, Bool-cases, inl, inr, drop, take,
  update, update_self, update_ne,
}
use sistemas_operativos.Market.Control.{
  Crowd, more_consumers, more_producers, fewer_producers, fewer_consumers, kill_loop,
  kill_all_processes, control_key, control,
}

-- The pids of the processes that run, the newest first.
abbrev pub newest : ℕ → (ℕ → ℕ) → List ℕ
newest zero pid = []
newest (suc n) pid = pid n ∷ newest n pid

-- What runs, as two stacks: a key puts a new pid on a stack of fewer than 10, or takes the newest.
pub record Stacks : Type 0 where
  pub producing : List ℕ
  pub consuming : List ℕ
  pub ended : List ℕ
  pub fresh : ℕ
  pub over : Bool

abbrev pub push : ℕ → List ℕ → List ℕ
push pid l = if ltb (length l) 10 then pid ∷ l else l

abbrev pub count_push : List ℕ → ℕ
count_push l = if ltb (length l) 10 then 1 else 0

abbrev pub stacks_of : Crowd → Stacks
stacks_of s = record {
  producing = newest s.producers s.producer_pid;
  consuming = newest s.consumers s.consumer_pid;
  ended = s.removed;
  fresh = s.created;
  over = s.end_;
}

pub stacks_key : (ℕ → ℕ) → ℕ → Stacks → Stacks
stacks_key pids c t =
    if c == b'c'
    then record t {
      consuming = push (pids t.fresh) t.consuming;
      fresh = t.fresh + count_push t.consuming;
    }
    else if c == b'p'
    then record t {
      producing = push (pids t.fresh) t.producing;
      fresh = t.fresh + count_push t.producing;
    }
    else if c == b'z'
    then record t { producing = drop 1 t.producing; ended = t.ended ++ take 1 t.producing }
    else if c == b'x'
    then record t { consuming = drop 1 t.consuming; ended = t.ended ++ take 1 t.consuming }
    else if c == b'q'
    then record t { ended = (t.ended ++ reverse t.producing) ++ reverse t.consuming; over = true }
    else t

length-newest : (n : ℕ) (pid : ℕ → ℕ) → length (newest n pid) ≡ n
length-newest zero pid = refl
length-newest (suc n) pid = ap suc (length-newest n pid)

newest-update : (n k : ℕ) (pid : ℕ → ℕ) (x : ℕ) → n ≤ k → newest n (update pid k x) ≡ newest n pid
newest-update zero k pid x le = refl
newest-update (suc n) k pid x le =
    rw (update_ne pid k n x (λ e. omega (arith, e)), newest-update n k pid x (omega arith))

newest_more : (n : ℕ) (pid : ℕ → ℕ) (x : ℕ) → newest (n + 1) (update pid n x) ≡ x ∷ newest n pid
newest_more n pid x =
    let e : n + 1 ≡ suc n = omega arith in
    rw (e, update_self pid n x, newest-update n n pid x (omega arith))

newest_fewer :
    (n : ℕ) (pid : ℕ → ℕ)
    → 1 ≤ n
    → (newest (n - 1) pid ≡ drop 1 (newest n pid)) × (pid (n - 1) ∷ [] ≡ take 1 (newest n pid))
newest_fewer zero pid h = absurd (omega arith)
newest_fewer (suc n) pid h = let e : suc n - 1 ≡ n = omega arith in rw e (refl, refl)

kill_loop-snoc :
    (n i : ℕ) (pid : ℕ → ℕ) → kill_loop (suc n) i pid ≡ kill_loop n i pid ++ pid (i + n) ∷ []
unfolding kill_loop
kill_loop-snoc zero i pid = ap (λ (k : ℕ). pid k ∷ []) (omega arith)
kill_loop-snoc (suc n) i pid =
    let e : i + 1 + n ≡ i + suc n = omega arith in
    ap (λ (l : List ℕ). pid i ∷ l) (rw e at (kill_loop-snoc n (i + 1) pid))

kill_loop-newest : (n : ℕ) (pid : ℕ → ℕ) → kill_loop n 0 pid ≡ reverse (newest n pid)
unfolding kill_loop
kill_loop-newest zero pid = refl
kill_loop-newest (suc n) pid =
    let e : 0 + n ≡ n = omega arith in
    rw e at (kill_loop-snoc n 0 pid)
    ∙ ap (λ (l : List ℕ). l ++ pid n ∷ []) (kill_loop-newest n pid)
    ∙ sym (reverse-cons (pid n) (newest n pid))

module _ (s : Crowd) where
  more_producers-push : stacks_of (more_producers s) ≡ record (stacks_of s) {
    producing = push (s.pids s.created) (newest s.producers s.producer_pid);
    fresh = s.created + count_push (newest s.producers s.producer_pid);
  }
  more_producers-push =
      let size = length-newest s.producers s.producer_pid in
      elim (Bool-cases (leb (s.producers + 1) 10)) [
        | inl room ↦
            let c : ltb (length (newest s.producers s.producer_pid)) 10 ≡ true =
              ground (arith, size) in
            rw (room, c, newest_more s.producers s.producer_pid (s.pids s.created))
        | inr none_left ↦
            let c : ltb (length (newest s.producers s.producer_pid)) 10 ≡ false =
              ground (arith, size) in
            let e : s.created + 0 ≡ s.created = omega arith in rw (none_left, c, e)
      ]

  more_consumers-push : stacks_of (more_consumers s) ≡ record (stacks_of s) {
    consuming = push (s.pids s.created) (newest s.consumers s.consumer_pid);
    fresh = s.created + count_push (newest s.consumers s.consumer_pid);
  }
  more_consumers-push =
      let size = length-newest s.consumers s.consumer_pid in
      elim (Bool-cases (leb (s.consumers + 1) 10)) [
        | inl room ↦
            let c : ltb (length (newest s.consumers s.consumer_pid)) 10 ≡ true =
              ground (arith, size) in
            rw (room, c, newest_more s.consumers s.consumer_pid (s.pids s.created))
        | inr none_left ↦
            let c : ltb (length (newest s.consumers s.consumer_pid)) 10 ≡ false =
              ground (arith, size) in
            let e : s.created + 0 ≡ s.created = omega arith in rw (none_left, c, e)
      ]

  fewer_producers-drop : stacks_of (fewer_producers s) ≡ record (stacks_of s) {
    producing = drop 1 (newest s.producers s.producer_pid);
    ended = s.removed ++ take 1 (newest s.producers s.producer_pid);
  }
  fewer_producers-drop = elim (Bool-cases (leb 1 s.producers)) [
    | inl some_left ↦
        let v = newest_fewer s.producers s.producer_pid (ground arith) in rw (some_left, v.0, v.1)
    | inr none_left ↦
        let z : s.producers ≡ 0 = ground arith in rw (none_left, z, append-nil s.removed)
  ]

  fewer_consumers-drop : stacks_of (fewer_consumers s) ≡ record (stacks_of s) {
    consuming = drop 1 (newest s.consumers s.consumer_pid);
    ended = s.removed ++ take 1 (newest s.consumers s.consumer_pid);
  }
  fewer_consumers-drop = elim (Bool-cases (leb 1 s.consumers)) [
    | inl some_left ↦
        let v = newest_fewer s.consumers s.consumer_pid (ground arith) in rw (some_left, v.0, v.1)
    | inr none_left ↦
        let z : s.consumers ≡ 0 = ground arith in rw (none_left, z, append-nil s.removed)
  ]

-- One key.
control_key-stacks_key :
    (c : ℕ) (s : Crowd) → stacks_of (control_key c s) ≡ stacks_key s.pids c (stacks_of s)
unfolding control_key kill_all_processes stacks_key
control_key-stacks_key c s = elim (Bool-cases (c == b'c')) [
  | inl c₁ ↦ rw c₁ (more_consumers-push s)
  | inr n₁ ↦ elim (Bool-cases (c == b'p')) [
    | inl c₂ ↦ rw (n₁, c₂) (more_producers-push s)
    | inr n₂ ↦ elim (Bool-cases (c == b'z')) [
      | inl c₃ ↦ rw (n₁, n₂, c₃) (fewer_producers-drop s)
      | inr n₃ ↦ elim (Bool-cases (c == b'x')) [
        | inl c₄ ↦ rw (n₁, n₂, n₃, c₄) (fewer_consumers-drop s)
        | inr n₄ ↦ elim (Bool-cases (c == b'q')) [
          | inl c₅ ↦ rw (
            n₁,
            n₂,
            n₃,
            n₄,
            c₅,
            kill_loop-newest s.producers s.producer_pid,
            kill_loop-newest s.consumers s.consumer_pid,
          )
          | inr n₅ ↦ rw (n₁, n₂, n₃, n₄, n₅)
        ]
      ]
    ]
  ]
]

pub stacks_control : (ℕ → ℕ) → List ℕ → Stacks → Stacks
stacks_control pids [] t = t
stacks_control pids (c ∷ keys) t =
    let rest = stacks_control pids keys (stacks_key pids c t) in if t.over then t else rest

control_key-pids : (c : ℕ) (s : Crowd) → (control_key c s).pids ≡ s.pids
unfolding control_key kill_all_processes
control_key-pids c s = ground arith

stacks_of_either :
    (b : Bool) (s s' : Crowd)
    → stacks_of (if b then s else s') ≡ (if b then stacks_of s else stacks_of s')
stacks_of_either true s s' = refl
stacks_of_either false s s' = refl

-- Under any keys `control` keeps two stacks of at most 10 pids: a key puts the pid of a new process
-- on a stack with room, or removes the newest process, if there is one; `q` removes all of them, the
-- producers first and the oldest first, and ends the loop.
pub control-stacks_control :
    (keys : List ℕ) (s : Crowd)
    → stacks_of (control keys s) ≡ stacks_control s.pids keys (stacks_of s)
unfolding control stacks_control
control-stacks_control [] s = refl
control-stacks_control (c ∷ keys) s =
    let ih =
      control-stacks_control keys (control_key c s)
      ∙ rw (control_key-pids c s, control_key-stacks_key c s) in
    stacks_of_either s.end_ s (control keys (control_key c s))
    ∙ ap (λ (t : Stacks). if s.end_ then stacks_of s else t) ih
