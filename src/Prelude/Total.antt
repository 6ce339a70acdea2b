-- ===== src/Prelude/Total.antt =====
-- Sums over lists.
use Prim.Native.Nat.{ℕ, zero, suc, ◌+◌, ◌≤◌, ◌<◌}
use mathlib.Core.Path.{◌≡◌, ap}
use mathlib.Core.List.{List, [], ◌∷◌, ◌++◌}
use mathlib.Core.Option.{some}
use native.Mathlib.Omega.{arith}
use btlos.Prelude.Lists.{get_elem?, set}
use btlos.Prelude.Tests.{of_some}

module _ {A : Type 0} (weight : A → ℕ) where
  abbrev pub total : List A → ℕ
  total [] = 0
  total (x ∷ xs) = weight x + total xs

  pub total-append : (xs ys : List A) → total (xs ++ ys) ≡ total xs + total ys
  total-append [] ys = omega arith
  total-append (x ∷ xs) ys = omega (arith, total-append xs ys)

  pub total-set :
      (xs : List A) (i : ℕ) (a b : A)
      → get_elem? xs i ≡ some a
      → total (set xs i b) + weight a ≡ total xs + weight b
  total-set [] i a b e = cc
  total-set (x ∷ xs) zero a b e = omega (arith, ap weight (of_some e))
  total-set (x ∷ xs) (suc i) a b e = omega (arith, total-set xs i a b e)

  total-one : (xs : List A) (i : ℕ) (a : A) → get_elem? xs i ≡ some a → weight a ≤ total xs
  total-one [] i a e = cc
  total-one (x ∷ xs) zero a e = omega (arith, ap weight (of_some e))
  total-one (x ∷ xs) (suc i) a e = omega (arith, total-one xs i a e)

  -- Two elements weigh no more than the whole list.
  pub total-two :
      (xs : List A) (i j : ℕ) (a b : A)
      → i < j
      → get_elem? xs i ≡ some a
      → get_elem? xs j ≡ some b
      → weight a + weight b ≤ total xs
  total-two [] i j a b lt e f = cc
  total-two (x ∷ xs) i zero a b lt e f = absurd (omega (arith, lt))
  total-two (x ∷ xs) zero (suc j) a b lt e f =
      omega (arith, ap weight (of_some e), total-one xs j b f)
  total-two (x ∷ xs) (suc i) (suc j) a b lt e f =
      omega (arith, total-two xs i j a b (omega (arith, lt)) e f)
