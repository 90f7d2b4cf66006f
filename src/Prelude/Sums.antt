-- ===== src/Prelude/Sums.antt =====
-- Sums of a weight over a list.
use Prim.Native.Nat.{ℕ, zero, suc, ◌+◌}
use mathlib.Core.Path.{◌≡◌, ap}
use mathlib.Core.List.{List, [], ◌∷◌, ◌++◌}
use mathlib.Core.Option.{Option, none, some}
use native.Mathlib.Omega.{arith}
use proxybroker_rs.Prelude.Lists.{get_elem?, remove_at}

-- A sum over all elements.
abbrev pub sum_over : {A : Type 0} → (A → ℕ) → List A → ℕ
sum_over g [] = 0
sum_over g (x ∷ xs) = g x + sum_over g xs

pub sum_over-append :
    {A : Type 0} (g : A → ℕ) (xs ys : List A)
    → sum_over g (xs ++ ys) ≡ sum_over g xs + sum_over g ys
sum_over-append g [] ys = omega arith
sum_over-append g (x ∷ xs) ys = omega (arith, sum_over-append g xs ys)

pub sum_over-remove_at :
    {A : Type 0} (g : A → ℕ) (xs : List A) (i : ℕ) (a : A)
    → get_elem? xs i ≡ some a
    → sum_over g xs ≡ g a + sum_over g (remove_at i xs)
unfolding remove_at
sum_over-remove_at g [] i a e = cc e
sum_over-remove_at g (x ∷ xs) zero a e = ap (λ (y : Option _). or_none g y + sum_over g xs) e
  where
    or_none : {A : Type 0} → (A → ℕ) → Option A → ℕ
    or_none g none = 0
    or_none g (some x) = g x
sum_over-remove_at g (x ∷ xs) (suc i) a e = omega (arith, sum_over-remove_at g xs i a e)
