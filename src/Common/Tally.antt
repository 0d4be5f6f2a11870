-- ===== src/Common/Tally.antt =====
-- Sums over lists.
use Prim.Native.Nat.{ℕ, ◌+◌}
use mathlib.Core.Path.{◌≡◌}
use mathlib.Core.List.{List, [], ◌∷◌, ◌++◌}
use native.Mathlib.Omega.{arith}

module _ {ℓ} {A : Type ℓ} where
  abbrev pub tally : (A → ℕ) → List A → ℕ
  tally f [] = 0
  tally f (x ∷ xs) = f x + tally f xs

  pub tally-append : (f : A → ℕ) (xs ys : List A) → tally f (xs ++ ys) ≡ tally f xs + tally f ys
  tally-append f [] ys = omega arith
  tally-append f (x ∷ xs) ys = omega (arith, tally-append f xs ys)

  pub tally-middle :
      (f : A → ℕ) (xs : List A) (x : A) (ys : List A)
      → tally f (xs ++ x ∷ ys) ≡ tally f (xs ++ ys) + f x
  tally-middle f [] x ys = omega arith
  tally-middle f (y ∷ xs) x ys = omega (arith, tally-middle f xs x ys)
