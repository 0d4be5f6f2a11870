-- ===== src/Workload/Chunks.antt =====
-- How the operations are shared out: `get_chunk` of src/ldc.cpp, which a client thread calls for
-- its own share, and `divideOperationSetPerThread` of src/operations.cpp, which makes all shares.
pub mod Bounds
pub mod Agree
use twig_kv.Common.{
  ℕ, zero, suc, ◌+◌, ◌*◌, ◌/◌, ◌%◌, min, List, [], ◌∷◌, Outcome, ok, panic, undefined, ltb, ◌==◌,
  if◌then◌else◌, length, slice,
}

module _ {ℓ} {A : Type ℓ} where
  -- `q` and `r` are the quotient and the remainder. For `i` from `n` on the end depends on the build:
  -- one with assertions stops at `assert(i < n)`, and one without them divides by zero or goes past
  -- the end of `vec`. The model has `undefined` for all of that.
  unfoldable pub get_chunk : List A → ℕ → ℕ → Outcome (List A)
  get_chunk vec n i =
      let q = length vec / n in
      let r = length vec % n in
      if ltb i n then ok (slice (i * q + min i r) ((i + 1) * q + min (i + 1) r) vec) else undefined

  -- The loop of `divideOperationSetPerThread`, from round `i` on with `rounds` rounds left.
  unfoldable pub divide_from : List A → ℕ → ℕ → ℕ → ℕ → ℕ → List (List A)
  divide_from ops per_thread extra zero i start = []
  divide_from ops per_thread extra (suc rounds) i start =
      let end = start + per_thread + (if ltb i extra then 1 else 0) in
      (if ltb start (length ops) then slice start end ops else [])
      ∷ divide_from ops per_thread extra rounds (i + 1) end

  -- `std::invalid_argument` without threads
  unfoldable pub divide_operation_set_per_thread : List A → ℕ → Outcome (List (List A))
  unfolding divide_from
  divide_operation_set_per_thread ops total_threads =
      if total_threads == 0
      then panic
      else ok (
          divide_from ops (length ops / total_threads) (length ops % total_threads) total_threads 0
            0)
