-- ===== src/Workload/Chunks/Bounds.antt =====
-- The shares cover the operations, in order and without overlap, and are balanced.
use mathlib.Core.List.{flatten}
use twig_kv.Common.{
  ℕ, zero, suc, ◌+◌, ◌*◌, ◌/◌, ◌%◌, ◌<◌, ◌≤◌, min, ◌≡◌, refl, sym, ap, ap₂, ◌∙◌, List, [], ◌∷◌, ok,
  arith, ltb, if◌then◌else◌, length, slice, slice-ge, slice-le, slice-append, slice-all,
  length-slice, get_or,
}
use twig_kv.Workload.Chunks.{divide_from, divide_operation_set_per_thread}

-- Where share `i` starts.
abbrev pub first_of : ℕ → ℕ → ℕ → ℕ
first_of q r i = i * q + min i r

pub first_of-suc :
    (q r i : ℕ) → first_of q r i + q + (if ltb i r then 1 else 0) ≡ first_of q r (i + 1)
first_of-suc q r i = ground arith

pub first_of-end : (l n : ℕ) → 0 < n → first_of (l / n) (l % n) n ≡ l
first_of-end l n h = grind arith

pub first_of-le : (q r i j : ℕ) → i ≤ j → first_of q r i ≤ first_of q r j
first_of-le q r i j h = grind arith

module _ {ℓ} {A : Type ℓ} (ops : List A) (q r : ℕ) where
  -- The operations of share `i`.
  abbrev pub share : ℕ → List A
  share i = slice (first_of q r i) (first_of q r (i + 1)) ops

  -- The shares `i`, `i + 1` and so on.
  ranges : ℕ → ℕ → List (List A)
  ranges zero i = []
  ranges (suc rounds) i = share i ∷ ranges rounds (i + 1)

  divide_from-eq-ranges :
      (rounds i start : ℕ)
      → start ≡ first_of q r i
      → divide_from ops q r rounds i start ≡ ranges rounds i
  unfolding divide_from ranges
  divide_from-eq-ranges zero i start e = refl
  divide_from-eq-ranges (suc rounds) i start e =
      let e' : start + q + (if ltb i r then 1 else 0) ≡ first_of q r (i + 1) =
        rw e (first_of-suc q r i) in
      ap₂ ◌∷◌ (rw e' (ground (arith, slice-ge start (first_of q r (i + 1)) ops)))
        (divide_from-eq-ranges rounds (i + 1) _ e')

  flatten-ranges :
      (rounds i j : ℕ)
      → i + rounds ≡ j
      → flatten (ranges rounds i) ≡ slice (first_of q r i) (first_of q r j) ops
  unfolding flatten ranges
  flatten-ranges zero i j e =
      sym (slice-le (first_of q r i) (first_of q r j) ops (first_of-le q r j i (omega arith)))
  flatten-ranges (suc rounds) i j e = rw (flatten-ranges rounds (i + 1) j (omega arith)) (
      slice-append (first_of q r i) (first_of q r (i + 1)) (first_of q r j) ops
        (first_of-le q r i (i + 1) (omega arith)) (first_of-le q r (i + 1) j (omega arith)))

  length-ranges : (rounds i : ℕ) → length (ranges rounds i) ≡ rounds
  unfolding ranges
  length-ranges zero i = refl
  length-ranges (suc rounds) i = ap suc (length-ranges rounds (i + 1))

  get_or-ranges :
      (rounds i j k : ℕ) → j < rounds → i + j ≡ k → get_or (ranges rounds i) j [] ≡ share k
  unfolding ranges
  get_or-ranges zero i j k h e = elim h [ ]
  get_or-ranges (suc rounds) i zero k h e = let e' : i ≡ k = omega arith in rw e'
  get_or-ranges (suc rounds) i (suc j) k h e =
      get_or-ranges rounds (i + 1) j k (omega arith) (omega arith)

module _ {ℓ} {A : Type ℓ} (ops : List A) (n : ℕ) (pos : 0 < n) where
  abbrev q : ℕ
  q = length ops / n

  abbrev r : ℕ
  r = length ops % n

  divided : divide_operation_set_per_thread ops n ≡ ok (ranges ops q r n 0)
  unfolding divide_operation_set_per_thread
  divided = ground (arith, divide_from-eq-ranges ops q r n 0 0 (omega arith))

  ends : first_of q r n ≡ length ops
  ends = first_of-end (length ops) n pos

  -- With at least one thread the division succeeds, makes one share for each thread, and the shares
  -- in order are the operations.
  pub flatten-divide_operation_set_per_thread :
      (ds : List (List A)) × (divide_operation_set_per_thread ops n ≡ ok ds)
      × (length ds ≡ n)
      × (flatten ds ≡ ops)
  flatten-divide_operation_set_per_thread = (
    ranges ops q r n 0,
    divided,
    length-ranges ops q r n 0,
    flatten-ranges ops q r n 0 n (omega arith)
        ∙ slice-all (first_of q r 0) (first_of q r n) ops (omega arith) (omega (arith, ends)),
  )

  pub get_or-divide_operation_set_per_thread :
      (i : ℕ) (ds : List (List A))
      → i < n
      → divide_operation_set_per_thread ops n ≡ ok ds
      → get_or ds i [] ≡ share ops q r i
  get_or-divide_operation_set_per_thread i ds h e =
      ground (arith, divided, get_or-ranges ops q r n 0 i i h (omega arith))

  -- With at least one thread, the share of a thread holds the quotient of the operations by
  -- the threads, and one more if the thread is among the first `remainder` ones.
  pub length-divide_operation_set_per_thread :
      (i : ℕ) (ds : List (List A))
      → i < n
      → divide_operation_set_per_thread ops n ≡ ok ds
      → length (get_or ds i []) ≡ length ops / n + (if ltb i (length ops % n) then 1 else 0)
  length-divide_operation_set_per_thread i ds h e =
      rw (get_or-divide_operation_set_per_thread i ds h e, length-slice _ _ ops inside)
        (ground (arith, first_of-suc q r i))
    where
      inside : first_of q r (i + 1) ≤ length ops
      inside = omega (arith, first_of-le q r (i + 1) n (omega arith), ends)
