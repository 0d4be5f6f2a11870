-- ===== src/AccessRate/Distribution/Complete.antt =====
-- `get_and_sort_freq` as a whole, and the search for the best choice that follows it.
use twig_kv.Common.{
  ℕ, suc, ◌^◌, ◌<◌, ◌≤◌, ◌≡◌, refl, ap, ◌∙◌, List, [], ◌∷◌, ◌++◌, Bool, false, ◌&&◌, Option, none,
  some, ok, undefined, ltb, leb, ◌==◌, if◌then◌else◌, length, get_elem?, take, length-replicate,
  tally-append, tally-sort, length-tally, length-append, sort, arith, take-ge, ℕ_discrete, ◌>>=◌,
}
use twig_kv.AccessRate.{Entry, Cdf}
use twig_kv.AccessRate.Sums.{IsCdf}
use twig_kv.AccessRate.Distribution.{
  KeyFreq, greater, allocate, mark_keys, distribute, get_and_sort_freq,
}
use twig_kv.AccessRate.Distribution.Emit.{
  over, pairs, is_key, the_freq, distribute_lem, distribute-idle,
}
use twig_kv.AccessRate.Distribution.Marks.{
  Cleared, Marked, clear_marks_lem, mark_keys_lem, missing_keys_lem, absent,
}

-- The frequency of one key.
abbrev pub freq_of : ℕ → ℕ → ℕ → ℕ
freq_of k key freq = if key == k then freq else 0

-- The keys are distinct numbers from 1 to the number of keys, which `int` holds, and the number of
-- accesses fits in 64 bits.
pub record Counted (key_freq : List KeyFreq) (total_keys : ℕ) : Type 0 where
  pub some_key : 1 ≤ total_keys
  pub int_keys : total_keys < 2 ^ 31
  pub fits : length key_freq ≤ total_keys
  pub distinct : (k : ℕ) → pairs (is_key k) key_freq ≤ 1
  pub known : (k : ℕ) → 1 ≤ pairs (is_key k) key_freq → (1 ≤ k) × (k ≤ total_keys)
  pub bounded : pairs the_freq key_freq < 2 ^ 64

-- An array that an earlier call has allocated is long enough.
abbrev pub Roomy : Option (List Bool) → ℕ → Type 0
Roomy none total_keys = Unit {0}
Roomy (some marks) total_keys = total_keys < length marks

allocate-Roomy :
    (key_map : Option (List Bool)) (total_keys : ℕ)
    → Roomy key_map total_keys
    → total_keys < length (allocate total_keys key_map)
allocate-Roomy none total_keys r = omega (arith, length-replicate (suc total_keys) false)
allocate-Roomy (some marks) total_keys r = r

counted-le : (k : ℕ) (es : List Entry) → over (is_key k) es ≤ length es
counted-le k [] = omega arith
counted-le k (e ∷ es) = ground (arith, counted-le k es)

pairs-le : (k : ℕ) (es : List KeyFreq) → pairs (is_key k) es ≤ length es
pairs-le k [] = omega arith
pairs-le k (e ∷ es) = ground (arith, pairs-le k es)

module _ (key_freq : List KeyFreq) (total_keys : ℕ) (key_map : Option (List Bool))
    (c : Counted key_freq total_keys) (r : Roomy key_map total_keys) where
  sorted : List KeyFreq
  sorted = sort greater key_freq

  sorted_same : (f : ℕ → ℕ → ℕ) → pairs f sorted ≡ pairs f key_freq
  unfolding sorted
  sorted_same f = tally-sort greater (λ e. f e.key e.freq) key_freq

  cut : take total_keys sorted ≡ sorted
  unfolding sorted
  cut = take-ge total_keys sorted (
      omega (
        arith,
        length-tally sorted,
        tally-sort greater (λ e. 1) key_freq,
        length-tally key_freq,
        c.fits,
      ))

  abbrev seen : ℕ → Bool
  seen k = ltb 0 (pairs (is_key k) key_freq)

  -- The list of missing keys that is found, and what the distribution is made from.
  record Completed : Type 0 where
    ms : List KeyFreq
    marks : List Bool
    run :
        get_and_sort_freq key_freq total_keys key_map
        ≡ (distribute (sorted ++ ms) >>= λ cdf. ok (cdf, marks))
    added : (k : ℕ) → pairs (is_key k) ms ≡ absent seen 1 (suc total_keys) k
    free : (f : ℕ → ℕ → ℕ) → ((k : ℕ) → f k 0 ≡ 0) → pairs f ms ≡ 0
    short : length ms ≤ total_keys

  seen_lem :
      (marks marks₁ marks₂ : List Bool)
      → Cleared 1 (suc total_keys) marks marks₁
      → Marked sorted marks₁ marks₂
      → (j : ℕ) → 1 ≤ j
      → j < suc total_keys
      → get_elem? marks₂ j ≡ some (seen j)
  seen_lem marks marks₁ marks₂ cl m j a b = elim (ℕ_discrete (pairs (is_key j) key_freq) 0) [
    | yes none_there ↦
        m.kept j (omega (arith, sorted_same (is_key j))) ∙ cl.off j a b ∙ ap some (ground arith)
    | no some_there ↦ m.on j (omega (arith, sorted_same (is_key j))) ∙ ap some (ground arith)
  ]

  completed : Completed
  unfolding get_and_sort_freq sorted
  completed =
      let marks₀ = allocate total_keys key_map in
      let room = allocate-Roomy key_map total_keys r in
      let (marks₁, run₁, cl) =
        clear_marks_lem total_keys 1 (suc total_keys) marks₀ (omega arith) (omega arith) in
      let (marks₂, run₂, m) = mark_keys_lem sorted marks₁ (λ k h.
        let (low, high) = c.known k (omega (arith, h, sorted_same (is_key k))) in
        (omega (arith, c.int_keys), omega (arith, cl.size))) in
      let (ms, run₃, added, free, short) =
        missing_keys_lem seen total_keys 1 (suc total_keys) marks₂ (omega arith)
          (seen_lem marks₀ marks₁ marks₂ cl m) in
      record {
        ms = ms;
        marks = marks₂;
        run = rw (run₁, ap (λ es. mark_keys es marks₁) cut, run₂, run₃, cut) refl;
        added = added;
        free = free;
        short = short;
      }

  key_count :
      (ms : List KeyFreq) (k : ℕ)
      → pairs (is_key k) ms ≡ absent seen 1 (suc total_keys) k
      → pairs (is_key k) (sorted ++ ms) ≡ (if leb 1 k && leb k total_keys then 1 else 0)
  key_count ms k added = ground (
    arith,
    added,
    tally-append (λ (e : KeyFreq). is_key k e.key e.freq) sorted ms,
    sorted_same (is_key k),
    c.distinct k,
    c.known k,
  )

  -- For keys that are distinct numbers from 1 to `total_keys`, with some access, and an array from
  -- an earlier call that is long enough: `get_and_sort_freq` returns a distribution in which each
  -- number from 1 to `total_keys` is the key of exactly one entry and no other number is the key of
  -- one; the entry of each key has the frequency that the cache counted for it, or 0 if the key is
  -- not in the list; and the map holds under each entry's key the sum of the frequencies of the
  -- entries up to and with it, as `get_sum_freq_till_index` needs.
  pub get_and_sort_freq_lem :
      (some_access : 1 ≤ pairs the_freq key_freq)
      → (cdf : Cdf) × (marks : List Bool) × (get_and_sort_freq key_freq total_keys key_map
          ≡ ok (cdf, marks))
        × ((k : ℕ) → over (is_key k) cdf.entries ≡ (if leb 1 k && leb k total_keys then 1 else 0))
        × ((k : ℕ) → over (freq_of k) cdf.entries ≡ pairs (freq_of k) key_freq)
        × IsCdf cdf
  get_and_sort_freq_lem some_access =
      let d = completed in
      let joined : (f : ℕ → ℕ → ℕ)
          → ((k : ℕ) → f k 0 ≡ 0)
          → pairs f (sorted ++ d.ms) ≡ pairs f key_freq =
        λ f z. omega (
          arith,
          d.free f z,
          tally-append (λ (e : KeyFreq). f e.key e.freq) sorted d.ms,
          sorted_same f,
        ) in
      let total = joined the_freq (λ k. refl) in
      let (cdf, run, kept, summed) =
        distribute_lem (sorted ++ d.ms) (λ k. ground (arith, key_count d.ms k (d.added k)))
          (omega (arith, total, some_access)) (omega (arith, total, c.bounded)) in
      (
        cdf,
        d.marks,
        d.run ∙ rw run refl,
        λ k. kept (is_key k) ∙ key_count d.ms k (d.added k),
        λ k. kept (freq_of k) ∙ joined (freq_of k) (λ j. ground arith),
        record {
          some_entry = ground (
            arith,
            kept (is_key 1),
            key_count d.ms 1 (d.added 1),
            c.some_key,
            counted-le 1 cdf.entries,
          );
          short = omega (
            arith,
            length-tally cdf.entries,
            length-tally (sorted ++ d.ms),
            kept (λ key freq. 1),
            length-append {0} sorted d.ms,
            length-tally sorted,
            length-tally key_freq,
            sorted_same (λ key freq. 1),
            c.fits,
            d.short,
            c.int_keys,
          );
          summed = summed;
          bounded = omega (arith, kept the_freq, total, c.bounded);
        },
      )

  -- With no access at all, all other conditions as above, `get_and_sort_freq` divides by zero.
  pub get_and_sort_freq-idle :
      (idle : pairs the_freq key_freq ≡ 0)
      → get_and_sort_freq key_freq total_keys key_map ≡ undefined
  get_and_sort_freq-idle idle =
      let d = completed in
      let total : pairs the_freq (sorted ++ d.ms) ≡ 0 = omega (
        arith,
        d.free the_freq (λ k. refl),
        tally-append (λ (e : KeyFreq). e.freq) sorted d.ms,
        sorted_same the_freq,
      ) in
      let someone = key_count d.ms 1 (d.added 1) in
      d.run
      ∙ rw
          (distribute-idle (sorted ++ d.ms) total
            (ground (arith, someone, c.some_key, pairs-le 1 (sorted ++ d.ms))))
          refl
