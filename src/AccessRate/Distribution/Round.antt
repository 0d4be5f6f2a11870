-- ===== src/AccessRate/Distribution/Round.antt =====
-- A round of the thread that tunes the cache.
use twig_kv.Common.{
  ℕ, zero, suc, ◌+◌, ◌*◌, ◌^◌, ◌<◌, ◌≤◌, ◌≡◌, ◌≢◌, refl, sym, ap, ◌∙◌, List, [], ◌∷◌, Bool, Option,
  leb, ◌&&◌, if◌then◌else◌, some, ok, undefined, get_elem?, arith,
}
use twig_kv.AccessRate.{Entry, Latencies, Choice}
use twig_kv.AccessRate.Optimal.{find_optimal_lem}
use twig_kv.AccessRate.Distribution.{KeyFreq, access_rate_round}
use twig_kv.AccessRate.Distribution.Emit.{over, pairs, is_key, is_key-get, the_freq}
use twig_kv.AccessRate.Distribution.Complete.{
  freq_of, Counted, Roomy, get_and_sort_freq_lem, get_and_sort_freq-idle,
}

freq_of_zero : (k : ℕ) (es : List Entry) → over (is_key k) es ≡ 0 → over (freq_of k) es ≡ 0
freq_of_zero k [] h = refl
freq_of_zero k (e ∷ es) h = ground (arith, freq_of_zero k es)

-- The frequency of a key that one entry has is that of the entry.
freq_of-get :
    (es : List Entry) (i : ℕ) (e : Entry)
    → get_elem? es i ≡ some e
    → over (is_key e.key) es ≤ 1
    → over (freq_of e.key) es ≡ e.freq
freq_of-get [] i e at once = absurd cc
freq_of-get (x ∷ es) zero e at once =
    let key : x.key ≡ e.key = cc in
    let freq : x.freq ≡ e.freq = cc in ground (arith, freq_of_zero e.key es)
freq_of-get (x ∷ es) (suc i) e at once = ground (arith, is_key-get es i e at, freq_of-get es i e at)

-- The keys of the entries are among those that are counted.
keys_below :
    {n : ℕ} (es : List Entry)
    → ((k : ℕ) → over (is_key k) es ≡ (if leb 1 k && leb k n then 1 else 0))
    → (i : ℕ) (e : Entry) → get_elem? es i ≡ some e
    → e.key ≤ n
keys_below es keys i e at = ground (arith, keys e.key, is_key-get es i e at)

module _ (t : Latencies) (cache_size : ℕ) (room : cache_size < 2 ^ 64) (key_freq : List KeyFreq)
    (total_keys : ℕ) (key_map : Option (List Bool)) (c : Counted key_freq total_keys)
    (r : Roomy key_map total_keys) where
  -- Under the conditions on the frequencies, the array and the size of the cache, a round returns if
  -- there has been some access. Its water marks share out the cache, three times the local one and
  -- once the remote one; and if the local one is not 0, the key that the cache is told is a number
  -- from 1 to `total_keys`, and the access rate is the frequency that was counted for that key.
  pub access_rate_round_lem :
      1 ≤ pairs the_freq key_freq
      → (choice : Choice) × (marks : List Bool) × (access_rate_round t cache_size key_freq
            total_keys key_map
          ≡ ok (choice, marks))
        × (choice.best.water_mark_remote + 3 * choice.best.water_mark_local ≡ cache_size)
        × (choice.best.water_mark_local ≢ 0
            → (1 ≤ choice.key_id_cutoff)
              × (choice.key_id_cutoff ≤ total_keys)
              × (choice.access_rate ≡ pairs (freq_of choice.key_id_cutoff) key_freq))
  unfolding access_rate_round
  access_rate_round_lem some_access =
      let (cdf, marks, built, keys, freqs, v) =
        get_and_sort_freq_lem key_freq total_keys key_map c r some_access in
      let (choice, e, run, best, at, rate, bucket, key) =
        find_optimal_lem cdf t cache_size v room
          (λ i e at. omega (arith, keys_below cdf.entries keys i e at, c.int_keys)) in
      (
        choice,
        marks,
        rw (built, run) refl,
        best.fits,
        λ local.
            let key' : choice.key_id_cutoff ≡ e.key = ground arith in
            let rate' : choice.access_rate ≡ e.freq = ground arith in
            let there = is_key-get cdf.entries choice.best.water_mark_local e at in
            let once =
              freq_of-get cdf.entries choice.best.water_mark_local e at
                (ground (arith, keys e.key)) in
            (
              ground (arith, keys e.key),
              ground (arith, keys e.key),
              rate' ∙ sym once ∙ freqs e.key ∙ ap (λ k. pairs (freq_of k) key_freq) (sym key'),
            ),
      )

  -- Under the same conditions a round without any access divides by zero.
  pub access_rate_round-idle :
      pairs the_freq key_freq ≡ 0
      → access_rate_round t cache_size key_freq total_keys key_map ≡ undefined
  unfolding access_rate_round
  access_rate_round-idle idle =
      rw (get_and_sort_freq-idle key_freq total_keys key_map c r idle) refl
