-- ===== src/AccessRate/Sums.antt =====
-- What the sums of frequencies count.
use twig_kv.Common.{
  ℕ, zero, suc, ◌-◌, ◌^◌, ◌<◌, ◌≤◌, ◌≡◌, refl, ap, List, [], ◌∷◌, some, ok, arith, length,
  get_elem?, leb, if◌then◌else◌, get_elem?-lt, take, tally,
}
use twig_kv.AccessRate.{Entry, Cdf, sum_at, clamp, get_sum_freq_till_index}

-- The frequency of the entries up to and with `i`.
abbrev pub cumulative : List Entry → ℕ → ℕ
cumulative es i = tally (λ e. e.freq) (take (suc i) es)

-- The map holds the cumulative frequency of each entry under its key, and the numbers fit in 64 bits.
pub record IsCdf (cdf : Cdf) : Type 0 where
  pub some_entry : 1 ≤ length cdf.entries
  pub short : length cdf.entries < 2 ^ 64
  pub summed :
      (i : ℕ) (e : Entry)
      → get_elem? cdf.entries i ≡ some e
      → cdf.sums e.key ≡ cumulative cdf.entries i
  pub bounded : tally (λ e. e.freq) cdf.entries < 2 ^ 64

cumulative_mono : (es : List Entry) (i j : ℕ) → i ≤ j → cumulative es i ≤ cumulative es j
cumulative_mono [] i j h = omega arith
cumulative_mono (e ∷ es) zero zero h = omega arith
cumulative_mono (e ∷ es) zero (suc j) h = omega arith
cumulative_mono (e ∷ es) (suc i) zero h = absurd (omega arith)
cumulative_mono (e ∷ es) (suc i) (suc j) h = omega (arith, cumulative_mono es i j (omega arith))

cumulative-le : (es : List Entry) (i : ℕ) → cumulative es i ≤ tally (λ e. e.freq) es
cumulative-le [] i = omega arith
cumulative-le (e ∷ es) zero = omega arith
cumulative-le (e ∷ es) (suc i) = omega (arith, cumulative-le es i)

-- An index, or the last one if it is past the end.
abbrev pub within : Cdf → ℕ → ℕ
within cdf i = if leb (length cdf.entries) i then length cdf.entries - 1 else i

pub clamp-within : (cdf : Cdf) (i : ℕ) → IsCdf cdf → clamp cdf i ≡ within cdf i
clamp-within cdf i v = ground (arith, v.some_entry, v.short)

within-lt : (cdf : Cdf) (i : ℕ) → IsCdf cdf → within cdf i < length cdf.entries
within-lt cdf i v = ground (arith, v.some_entry)

pub sum_at_lem :
    (cdf : Cdf) (i : ℕ)
    → IsCdf cdf
    → sum_at cdf (clamp cdf i) ≡ ok (cumulative cdf.entries (within cdf i))
sum_at_lem cdf i v =
    let (e, at) = get_elem?-lt cdf.entries (within cdf i) (within-lt cdf i v) in
    rw (clamp-within cdf i v, sum_at, at, v.summed (within cdf i) e at) refl

within_mono : (cdf : Cdf) (i j : ℕ) → i ≤ j → IsCdf cdf → within cdf i ≤ within cdf j
within_mono cdf i j h v = ground arith

-- If the map of a distribution holds its cumulative frequencies, the sum of frequencies from
-- `start` to `end` is that of the entries after `start` up to and with `end`, where an index
-- past the end stands for the last entry.
pub get_sum_freq_till_index_lem :
    (cdf : Cdf) (start end : ℕ)
    → IsCdf cdf
    → start ≤ end
    → get_sum_freq_till_index cdf start end
      ≡ ok (cumulative cdf.entries (within cdf end) - cumulative cdf.entries (within cdf start))
unfolding get_sum_freq_till_index
get_sum_freq_till_index_lem cdf start end v h =
    let le = cumulative_mono cdf.entries _ _ (within_mono cdf start end h v) in
    let fits = cumulative-le cdf.entries (within cdf end) in
    rw (sum_at_lem cdf start v, sum_at_lem cdf end v) (ap ok (omega (arith, le, fits, v.bounded)))
