-- ===== src/Common/Sort.antt =====
-- `std::sort` with a comparison, which puts `a` before `b` if `before a b`. The standard does not fix
-- the order of elements that compare equal; here they keep theirs.
use Prim.Native.Nat.{ℕ, ◌+◌}
use mathlib.Core.Path.{◌≡◌, refl}
use mathlib.Core.Bool.{Bool}
use mathlib.Core.List.{List, [], ◌∷◌}
use native.Mathlib.Omega.{arith}
use twig_kv.Common.Tests.{if◌then◌else◌, Bool-cases}
use twig_kv.Common.Lists.{length}
use twig_kv.Common.Tally.{tally}
use mathlib.Core.Logic.{inl, inr}

module _ {ℓ} {A : Type ℓ} (before : A → A → Bool) where
  abbrev pub insert : A → List A → List A
  insert x [] = x ∷ []
  insert x (y ∷ ys) = if before y x then y ∷ insert x ys else x ∷ y ∷ ys

  unfoldable pub sort : List A → List A
  sort [] = []
  sort (x ∷ xs) = insert x (sort xs)

  tally-insert : (f : A → ℕ) (x : A) (ys : List A) → tally f (insert x ys) ≡ f x + tally f ys
  tally-insert f x [] = refl
  tally-insert f x (y ∷ ys) = elim (Bool-cases (before y x)) [
    | inl e ↦ rw e (omega (arith, tally-insert f x ys))
    | inr e ↦ rw e refl
  ]

  -- Sorting keeps every sum, and so the number of times that each element occurs.
  pub tally-sort : (f : A → ℕ) (xs : List A) → tally f (sort xs) ≡ tally f xs
  unfolding sort
  tally-sort f [] = refl
  tally-sort f (x ∷ xs) = omega (arith, tally-insert f x (sort xs), tally-sort f xs)

pub length-tally {ℓ} : {A : Type ℓ} (xs : List A) → tally (λ x. 1) xs ≡ length xs
length-tally [] = refl
length-tally (x ∷ xs) = omega (arith, length-tally xs)
