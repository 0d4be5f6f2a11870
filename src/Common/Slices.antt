-- ===== src/Common/Slices.antt =====
-- Ranges of a vector, `std::vector<T>(v.begin() + first, v.begin() + last)`.
use Prim.Native.Nat.{ℕ, zero, suc, ◌+◌, ◌-◌, ◌≤◌}
use mathlib.Core.Path.{◌≡◌, refl, ap}
use mathlib.Core.List.{List, [], ◌∷◌, ◌++◌}
use native.Mathlib.Omega.{arith}
use twig_kv.Common.Lists.{length, take, drop, length-take, length-drop}

module _ {ℓ} {A : Type ℓ} where
  abbrev pub slice : ℕ → ℕ → List A → List A
  slice first last xs = take (last - first) (drop first xs)

  drop-ge : (n : ℕ) (xs : List A) → length xs ≤ n → drop n xs ≡ []
  drop-ge zero [] h = refl
  drop-ge zero (x ∷ xs) h = absurd (omega arith)
  drop-ge (suc n) [] h = refl
  drop-ge (suc n) (x ∷ xs) h = drop-ge n xs (omega arith)

  pub take-ge : (n : ℕ) (xs : List A) → length xs ≤ n → take n xs ≡ xs
  take-ge zero [] h = refl
  take-ge zero (x ∷ xs) h = absurd (omega arith)
  take-ge (suc n) [] h = refl
  take-ge (suc n) (x ∷ xs) h = ap (◌∷◌ x) (take-ge n xs (omega arith))

  pub slice-ge : (a b : ℕ) (xs : List A) → length xs ≤ a → slice a b xs ≡ []
  slice-ge a b xs h = rw (drop-ge a xs h) (take-ge (b - a) [] (omega arith))

  take-append-take :
      (m n k : ℕ) (xs : List A) → m + n ≡ k → take m xs ++ take n (drop m xs) ≡ take k xs
  take-append-take zero n k xs e = ap (λ j. take j xs) (omega arith)
  take-append-take (suc m) n zero xs e = absurd (omega arith)
  take-append-take (suc m) n (suc k) [] e = take-ge n [] (omega arith)
  take-append-take (suc m) n (suc k) (x ∷ xs) e =
      ap (◌∷◌ x) (take-append-take m n k xs (omega arith))

  drop-drop : (a b k : ℕ) (xs : List A) → a + b ≡ k → drop b (drop a xs) ≡ drop k xs
  drop-drop zero b k xs e = ap (λ j. drop j xs) (omega arith)
  drop-drop (suc a) b zero xs e = absurd (omega arith)
  drop-drop (suc a) b (suc k) [] e = drop-ge b [] (omega arith)
  drop-drop (suc a) b (suc k) (x ∷ xs) e = drop-drop a b k xs (omega arith)

  pub slice-le : (a b : ℕ) (xs : List A) → b ≤ a → slice a b xs ≡ []
  slice-le a b xs h = let e : b - a ≡ 0 = omega arith in rw e

  -- Neighbouring ranges join.
  pub slice-append :
      (a b c : ℕ) (xs : List A) → a ≤ b → b ≤ c → slice a b xs ++ slice b c xs ≡ slice a c xs
  slice-append a b c xs h k =
      rw (← drop-drop a (b - a) b xs (omega arith))
        (take-append-take (b - a) (c - b) (c - a) (drop a xs) (omega arith))

  pub slice-all : (a b : ℕ) (xs : List A) → a ≡ 0 → length xs ≤ b → slice a b xs ≡ xs
  slice-all a b xs e h = rw e (take-ge (b - 0) xs (omega arith))

  pub length-slice : (a b : ℕ) (xs : List A) → b ≤ length xs → length (slice a b xs) ≡ b - a
  length-slice a b xs h = omega (arith, length-take (b - a) (drop a xs), length-drop a xs)
