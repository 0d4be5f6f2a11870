-- ===== src/Common/Division.antt =====
-- Quotients and remainders by a variable.
use Prim.Native.Nat.{ℕ, ◌+◌, ◌-◌, ◌*◌, ◌/◌, ◌%◌, ◌≤◌, ◌<◌}
use mathlib.Core.Path.{◌≡◌}
use mathlib.Core.Logic.{◌≢◌}
use native.Mathlib.Omega.{arith}

-- A number in base `k`.
pub div-add : (k n o : ℕ) → o < k → (n * k + o) / k ≡ n
div-add k n o h = grind arith

pub mod-add : (k n o : ℕ) → o < k → (n * k + o) % k ≡ o
mod-add k n o h = grind arith

-- One step back from a number that is no multiple.
pub div_step : (k n : ℕ) → n % k ≢ 0 → 0 < k → 1 ≤ n → (n - 1) / k ≡ n / k
div_step k n h p l = grind arith

pub mod_step : (k n : ℕ) → n % k ≢ 0 → 0 < k → 1 ≤ n → (n - 1) % k + 1 ≡ n % k
mod_step k n h p l = grind arith

-- A number that is congruent to `j < k` leaves it as its remainder.
pub mod-eq_of_sub_mod : (k n j : ℕ) → j < k → j ≤ n → (n - j) % k ≡ 0 → n % k ≡ j
mod-eq_of_sub_mod k n j h l e = grind arith

pub sub-mod_self : (k n : ℕ) → 0 < k → (n - n % k) % k ≡ 0
sub-mod_self k n h = grind arith

pub mod-sub : (k n j : ℕ) → 1 ≤ j → j < k → k ≤ n → n % k ≡ 0 → (n - j) % k ≡ k - j
mod-sub k n j l h m e = grind arith

-- One step back from a multiple.
pub div_step_back : (k n : ℕ) → n % k ≡ 0 → 0 < k → 1 ≤ n → (n - 1) / k + 1 ≡ n / k
div_step_back k n h p l = grind arith

pub div-lt_mul : (k m n : ℕ) → n < k * m → n / k < m
div-lt_mul k m n h = grind arith

pub mod-small : (n m : ℕ) → n < m → n % m ≡ n
mod-small n m h = grind arith
