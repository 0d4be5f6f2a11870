-- ===== src/Index/Logs/Newest.antt =====
-- Which of the appended entries a slot of the log holds: arithmetic on the slot numbers.
use twig_kv.Common.{
  ℕ, ◌+◌, ◌-◌, ◌%◌, ◌<◌, ◌≤◌, ◌≡◌, ◌≢◌, sym, ap, arith, mod_step, mod-eq_of_sub_mod,
}

-- The number of the newest of `k` appended entries that went to slot `j`.
abbrev pub newest : ℕ → ℕ → ℕ → ℕ
newest max k j = k - 1 - (k - 1 - j) % max

pub newest_self : (max k : ℕ) → 0 < max → newest max (k + 1) (k % max) ≡ k
newest_self max k h = grind arith

pub newest-other :
    (max k j : ℕ) → j < max → j < k → j ≢ k % max → newest max (k + 1) j ≡ newest max k j
newest-other max k j lt le ne =
    let off : (k - j) % max ≢ 0 = λ e. ne (sym (mod-eq_of_sub_mod max k j lt (omega arith) e)) in
    let now : k + 1 - 1 - j ≡ k - j = omega arith in
    let before : k - j - 1 ≡ k - 1 - j = omega arith in
    let step = mod_step max (k - j) off (omega arith) (omega arith) in
    omega (arith, ap (λ t. t % max) now, ap (λ t. t % max) before, step)

pub newest-full :
    (max k j : ℕ) → 1 ≤ j → j < max → max ≤ k → k % max ≡ 0 → newest max (k + 1) j ≡ k - max + j
newest-full max k j lo hi m e = grind arith
