-- ===== src/Run.antt =====
-- Code that may give up the processor: `_yield` hands the world to the other processes, and the
-- code goes on in whatever world they leave.

pub data Run (W : Type 0) (A : Type 0) : Type 0 where
  done : A → W → Run W A
  yielded : W → (W → Run W A) → Run W A

-- A step of code: from a world to its outcome.
abbrev pub Code : Type 0 → Type 0 → Type 0
Code W A = W → Run W A

abbrev pub then_run : {W A B : Type 0} → Run W A → (A → Code W B) → Run W B
then_run (done a w) f = f a w
then_run (yielded w k) f = yielded w (λ w'. then_run (k w') f)

infixl 5 ◌>>=◌ ◌>>◌
abbrev pub ◌>>=◌ : {W A B : Type 0} → Code W A → (A → Code W B) → Code W B
◌>>=◌ m f w = then_run (m w) f

abbrev pub ◌>>◌ : {W B : Type 0} → Code W (Unit {0}) → Code W B → Code W B
◌>>◌ m k w = then_run (m w) (λ _. k)

abbrev pub pure : {W A : Type 0} → A → Code W A
pure a w = done a w

abbrev pub modify : {W : Type 0} → (W → W) → Code W (Unit {0})
modify f w = done tt (f w)

abbrev pub read : {W A : Type 0} → (W → A) → Code W A
read f w = done (f w) w

abbrev pub give_up : {W : Type 0} → Code W (Unit {0})
give_up w = yielded w (λ w'. done tt w')
