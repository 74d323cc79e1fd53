-- ===== src/Base/Window.antt =====
-- A circular array: the elements of `buf` from index `h` on, going round at `cap`.
use Prim.Native.Nat.{min, ℕ, zero, suc, ◌+◌, ◌-◌, ◌≤◌, ◌<◌}
use mathlib.Core.Path.{◌≡◌, refl, ap, ap₂}
use mathlib.Core.Logic.{◌⊎◌, ◌≢◌}
use mathlib.Core.List.{List, [], ◌∷◌, ◌++◌}
use native.Mathlib.Omega.{arith}
use sistemas_operativos.Base.Lists.{length, get_or, set, take, get_or-set_self, get_or-set_ne}
use sistemas_operativos.Base.Tests.{if◌then◌else◌, ◌==◌, leb}

-- The index after `i`: pointers are advanced by one and reset at the end.
abbrev pub bump : ℕ → ℕ → ℕ
bump cap i = if i + 1 == cap then 0 else i + 1

module _ (buf : List ℕ) (cap : ℕ) where
  abbrev pub window : ℕ → ℕ → List ℕ
  window h zero = []
  window h (suc n) = get_or buf h 0 ∷ window (bump cap h) n

  pub length-window : (h n : ℕ) → length (window h n) ≡ n
  length-window h zero = refl
  length-window h (suc n) = ap suc (length-window (bump cap h) n)

-- Index `i` lies `n` places after `h`, going round at `cap`.
abbrev pub IsAfter : ℕ → ℕ → ℕ → ℕ → Type 0
IsAfter cap h n i = (i ≡ h + n) ⊎ (i + cap ≡ h + n)

-- How many places lie from `h` up to `i`.
abbrev pub span : ℕ → ℕ → ℕ → ℕ
span cap h i = if leb h i then i - h else i + cap - h

pub span-IsAfter : (cap h i : ℕ) → h < cap → IsAfter cap h (span cap h i) i
span-IsAfter cap h i hh = ground arith

-- One place further, unless that is `h` again.
pub span-bump :
    (cap h i : ℕ)
    → h < cap
    → i < cap
    → bump cap i ≢ h
    → span cap h (bump cap i) ≡ suc (span cap h i)
span-bump cap h i hh hi ne = ground arith

-- One place less from the next start, unless nothing lies between.
pub span-bump_start :
    (cap h i : ℕ) → h < cap → i < cap → h ≢ i → span cap h i ≡ suc (span cap (bump cap h) i)
span-bump_start cap h i hh hi ne = ground arith

pub span-lt : (cap h i : ℕ) → h < cap → i < cap → span cap h i < cap
span-lt cap h i hh hi = ground arith

IsAfter-bump :
    (cap h n i : ℕ) → h < cap → i < cap → IsAfter cap h (suc n) i → IsAfter cap (bump cap h) n i
IsAfter-bump cap h n i hh hi a = ground arith

-- Writing just past a window extends it by the value written.
pub window-set :
    (buf : List ℕ) (cap x n h i : ℕ)
    → cap ≤ length buf
    → h < cap
    → i < cap
    → n < cap
    → IsAfter cap h n i
    → window (set buf i x) cap h (suc n) ≡ window buf cap h n ++ (x ∷ [])
window-set buf cap x zero h i hs hh hi hn a =
    let e : i ≡ h = omega arith in
    ap (λ (v : ℕ). v ∷ []) (rw e (get_or-set_self buf h x 0 (omega arith)))
window-set buf cap x (suc n) h i hs hh hi hn a = ap₂ ◌∷◌ (get_or-set_ne buf i h x 0 (omega arith)) (
    window-set buf cap x n (bump cap h) i hs (ground arith) hi (omega arith)
      (IsAfter-bump cap h n i hh hi a))

-- The first `m` values of a window are the shorter window.
pub take-window :
    (buf : List ℕ) (cap h m n : ℕ) → m ≤ n → take m (window buf cap h n) ≡ window buf cap h m
take-window buf cap h zero n le = refl
take-window buf cap h (suc m) zero le = absurd (omega arith)
take-window buf cap h (suc m) (suc n) le =
    ap (◌∷◌ (get_or buf h 0)) (take-window buf cap (bump cap h) m n (omega arith))

pub take-window-min :
    (buf : List ℕ) (cap h n m : ℕ) → take n (window buf cap h m) ≡ window buf cap h (min n m)
take-window-min buf cap h zero m = let e : min 0 m ≡ 0 = omega arith in rw e
take-window-min buf cap h (suc n) zero = let e : min (suc n) 0 ≡ 0 = omega arith in rw e
take-window-min buf cap h (suc n) (suc m) =
    let e : min (suc n) (suc m) ≡ suc (min n m) = omega arith in
    rw e (ap (◌∷◌ (get_or buf h 0)) (take-window-min buf cap (bump cap h) n m))
