-- ===== src/Pipes/Fifo.antt =====
-- Kernel/IPC.c: a pipe as a bounded queue of characters, `write` and `read` on the pipe alone.
use sistemas_operativos.Base.{
  ℕ, zero, suc, ◌+◌, ◌-◌, ◌%◌, ◌≤◌, ◌<◌, ◌≡◌, ◌⊎◌, refl, sym, ap, ◌∙◌, arith, min, List, [], ◌∷◌,
  ◌++◌, append-nil, append_assoc, take, drop, take-nil, length, length-set, set, get_or, not, ◌||◌,
  Bool-cases, inl, inr, if◌then◌else◌, ◌==◌,
}
use sistemas_operativos.Base.Window.{
  window, length-window, span, window-set, take-window-min, IsAfter, bump,
}
use sistemas_operativos.Pipes.{Pipe, pipe_length, next, write_loop, written, read_loop, consumed}

-- How many characters the pipe holds: with both ends at one place the flag decides.
abbrev pub held : Pipe → ℕ
held x =
    if x.end_ == x.position
    then (if x.read_flag == 1 then pipe_length else 0)
    else span pipe_length x.position x.end_

-- The characters in the pipe, oldest first.
abbrev pub contents : Pipe → List ℕ
contents x = window x.stored pipe_length x.position (held x)

pub record IsPipe (x : Pipe) : Type 0 where
  pub sized : length x.stored ≡ pipe_length
  pub position_in : x.position < pipe_length
  pub end_in : x.end_ < pipe_length
  pub flag : (x.read_flag ≡ 0) ⊎ ((x.read_flag ≡ 1) × (x.end_ ≡ x.position))

pub held-bound : (x : Pipe) → IsPipe x → held x ≤ pipe_length
held-bound x v = ground (arith, v.position_in, v.end_in)

pub held-IsAfter : (x : Pipe) → IsPipe x → IsAfter pipe_length x.position (held x) x.end_
held-IsAfter x v = ground (arith, v.position_in, v.end_in)

take-cons :
    (n : ℕ) (c : ℕ) (message : List ℕ)
    → n < pipe_length
    → take (pipe_length - n) (c ∷ message) ≡ c ∷ take (pipe_length - suc n) message
take-cons n c message lt = let e : pipe_length - n ≡ suc (pipe_length - suc n) = omega arith in rw e

-- `n` characters are there, of which the loop has written `bytes`.
write_loop_lem :
    (message : List ℕ) (aux bytes n : ℕ) (x : Pipe)
    → length x.stored ≡ pipe_length
    → x.position < pipe_length
    → x.end_ < pipe_length
    → aux ≡ (x.end_ + bytes) % pipe_length
    → n ≤ pipe_length
    → IsAfter pipe_length x.position n aux
    → (bytes ≡ 0 → n < pipe_length)
    → (0 < bytes → 0 < n)
    → let (bytes', stored') = write_loop message aux bytes x in
      let k = min (pipe_length - n) (length message) in
      (bytes' ≡ bytes + k)
      × (window stored' pipe_length x.position (n + k)
          ≡ window x.stored pipe_length x.position n ++ take (pipe_length - n) message)
      × (length stored' ≡ pipe_length)
unfolding write_loop
write_loop_lem [] aux bytes n x sized hp he ha hn after first later = (
  omega arith,
  let e : n + min (pipe_length - n) 0 ≡ n = omega arith in
      rw (e, take-nil (pipe_length - n), append-nil (window x.stored pipe_length x.position n)),
  sized,
)
write_loop_lem (c ∷ message) aux bytes n x sized hp he ha hn after first later =
    elim (Bool-cases (not ((x.end_ + bytes) % pipe_length == x.position) || (bytes == 0))) [
      | inl goes ↦
          let lt : n < pipe_length = ground arith in
          let (ih₀, ih₁, ih₂) =
            write_loop_lem message (next aux) (bytes + 1) (suc n)
              (record x { stored = set x.stored aux c }) (length-set x.stored aux c ∙ sized) hp he
              (ground arith) (omega arith) (ground arith) (λ z. absurd (omega arith))
              (λ z. omega arith) in
          let e : n + min (pipe_length - n) (suc (length message))
              ≡ suc n + min (pipe_length - suc n) (length message) =
            omega arith in
          rw goes (
            omega (arith, ih₀),
            rw (e, take-cons n c message lt)
                (ih₁
                  ∙ ap (λ (l : List ℕ). l ++ take (pipe_length - suc n) message)
                      (window-set x.stored pipe_length c n x.position aux (omega arith) hp
                        (ground arith) lt after)
                  ∙ append_assoc (window x.stored pipe_length x.position n) (c ∷ [])
                      (take (pipe_length - suc n) message)),
            ih₂,
          )
      | inr stops ↦
          let e : n ≡ pipe_length = ground arith in
          let z : pipe_length - n ≡ 0 = omega (arith, e) in
          let same : n + min (pipe_length - n) (suc (length message)) ≡ n = omega (arith, e) in
          rw stops (
            omega (arith, e),
            rw (same, z, append-nil (window x.stored pipe_length x.position n)),
            sized,
          )
    ]

-- What `write` does to a pipe with room: as much of the message as fits is appended.
pub record Appended (message : List ℕ) (x y : Pipe) : Type 0 where
  pub appended : contents y ≡ contents x ++ take (pipe_length - held x) message
  pub total : held y ≡ held x + min (pipe_length - held x) (length message)
  pub pipe : IsPipe y

pub written-Appended :
    (message : List ℕ) (x : Pipe)
    → IsPipe x
    → held x < pipe_length
    → 0 < length message
    → ((write_loop message x.end_ 0 x).0 ≡ min (pipe_length - held x) (length message))
      × Appended message x (written x.end_ message x)
written-Appended message x v room some = (
  loop.0,
  record {
    appended = rw count loop.1;
    total = count;
    pipe = record {
      sized = loop.2;
      position_in = v.position_in;
      end_in = omega arith;
      flag = ground (arith, v.flag);
    };
  },
)
  where
    k : ℕ
    k = min (pipe_length - held x) (length message)

    loop :
        let (bytes', stored') = write_loop message x.end_ 0 x in
        (bytes' ≡ k)
        × (window stored' pipe_length x.position (held x + k)
            ≡ contents x ++ take (pipe_length - held x) message)
        × (length stored' ≡ pipe_length)
    loop =
        let (loop₀, loop₁, loop₂) =
          write_loop_lem message x.end_ 0 (held x) x v.sized v.position_in v.end_in (omega arith)
            (held-bound x v) (held-IsAfter x v) (λ _. room) (λ z. absurd (omega arith)) in
        (omega (arith, loop₀), loop₁, loop₂)

    count : held (written x.end_ message x) ≡ held x + k
    count = ground (arith, loop.0, v.position_in, v.end_in)

-- `m` characters are left from `aux` on, `i` are read.
read_loop_lem :
    (n aux i m : ℕ) (x : Pipe)
    → x.position < pipe_length
    → x.end_ < pipe_length
    → aux ≡ (i + x.position) % pipe_length
    → IsAfter pipe_length aux m x.end_
    → m ≤ pipe_length
    → (i ≡ 0 → 0 < m)
    → (0 < i → m < pipe_length)
    → read_loop n aux i x ≡ window x.stored pipe_length aux (min n m)
unfolding read_loop
read_loop_lem zero aux i m x hp he ha after hm first later =
    let e : min 0 m ≡ 0 = omega arith in rw e
read_loop_lem (suc n) aux i m x hp he ha after hm first later =
    elim (Bool-cases (not ((i + x.position) % pipe_length == x.end_) || (i == 0))) [
      | inl goes ↦
          let some : 0 < m = ground arith in
          let e : min (suc n) m ≡ suc (min n (m - 1)) = omega arith in
          rw (goes, e)
            (ap (◌∷◌ (get_or x.stored aux 0)) (
              read_loop_lem n (next aux) (i + 1) (m - 1) x hp he (ground arith) (ground arith)
                (omega arith) (λ z. absurd (omega arith)) (λ z. omega arith)))
      | inr stops ↦ let e : min (suc n) m ≡ 0 = ground arith in rw (stops, e)
    ]

drop-window :
    (stored : List ℕ) (k h n : ℕ)
    → h < pipe_length
    → k ≤ n
    → drop k (window stored pipe_length h n)
      ≡ window stored pipe_length ((h + k) % pipe_length) (n - k)
drop-window stored zero h n hh le =
    let e : (h + 0) % pipe_length ≡ h = omega arith in let z : n - 0 ≡ n = omega arith in rw (e, z)
drop-window stored (suc k) h zero hh le = absurd (omega arith)
drop-window stored (suc k) h (suc n) hh le =
    let e : (bump pipe_length h + k) % pipe_length ≡ (h + suc k) % pipe_length = ground arith in
    let z : n - k ≡ suc n - suc k = omega arith in
    drop-window stored k (bump pipe_length h) n (ground arith) (omega arith) ∙ rw (e, z)

-- What `read` does to a pipe that holds characters: the oldest are handed out in order, as many as
-- are asked for and are there, and the others stay.
pub record Taken (n : ℕ) (got : List ℕ) (x y : Pipe) : Type 0 where
  pub taken : got ≡ take n (contents x)
  pub rest : contents y ≡ drop (length got) (contents x)
  pub total : held y + length got ≡ held x
  pub pipe : IsPipe y

pub consumed-Taken :
    (n : ℕ) (x : Pipe)
    → IsPipe x
    → 0 < held x
    → 0 < n
    → let got = read_loop n x.position 0 x in Taken n got x (consumed (length got) x)
consumed-Taken n x v some asks = record {
  taken = got_lem ∙ sym (take-window-min x.stored pipe_length x.position n (held x));
  rest = rw count (
      sym (
        drop-window x.stored (length (read_loop n x.position 0 x)) x.position (held x) v.position_in
          (omega (arith, count_got))));
  total = omega (arith, count, count_got);
  pipe = record { sized = v.sized; position_in = omega arith; end_in = v.end_in; flag = inl refl };
}
  where
    k : ℕ
    k = min n (held x)

    got_lem : read_loop n x.position 0 x ≡ window x.stored pipe_length x.position k
    got_lem =
        read_loop_lem n x.position 0 (held x) x v.position_in v.end_in
          (omega (arith, v.position_in)) (held-IsAfter x v) (held-bound x v) (λ _. some)
          (λ z. absurd (omega arith))

    count_got : length (read_loop n x.position 0 x) ≡ k
    count_got = ap length got_lem ∙ length-window x.stored pipe_length x.position k

    count :
        held (consumed (length (read_loop n x.position 0 x)) x)
        ≡ held x - length (read_loop n x.position 0 x)
    count = ground (arith, count_got, v.flag, v.position_in, v.end_in)
