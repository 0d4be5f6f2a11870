-- ===== src/AccessRate/Optimal.antt =====
-- The search looks at every choice that fits in the cache, and finds the best one.
use twig_kv.Common.{
  ℕ, zero, suc, ◌+◌, ◌-◌, ◌*◌, ◌/◌, ◌^◌, ◌<◌, ◌≤◌, ◌≡◌, refl, sym, subst, ltb→lt, ◌∙◌, some, ok,
  ok_injective, arith, length, get_elem?, ltb, if◌then◌else◌, sub64, mul64, add64, Bool-cases,
  ℕ_discrete, inl, inr, get_elem?-lt, ◌==◌, stoi_lem,
}
use twig_kv.AccessRate.{
  Entry, Cdf, Latencies, Best, Choice, better, total_latency, get_sum_freq_till_index,
  calculate_performance, search, find_optimal,
}
use twig_kv.AccessRate.Sums.{IsCdf, within, cumulative, sum_at_lem}

module _ (cdf : Cdf) (t : Latencies) (cache_size : ℕ) (v : IsCdf cdf)
    (room : cache_size < 2 ^ 64) where
  -- The remote water mark that goes with a local one.
  abbrev remote_for : ℕ → ℕ
  remote_for local = cache_size - 3 * local

  sum_returns : (start end : ℕ) → (s : ℕ) × (get_sum_freq_till_index cdf start end ≡ ok s)
  unfolding get_sum_freq_till_index
  sum_returns start end = (
    sub64 (cumulative cdf.entries (within cdf end)) (cumulative cdf.entries (within cdf start)),
    rw (sum_at_lem cdf start v, sum_at_lem cdf end v) refl,
  )

  performance_returns :
      (local remote : ℕ)
      → (performance : ℕ) × (calculate_performance cdf t local remote ≡ ok performance)
  unfolding calculate_performance
  performance_returns local remote =
      let (a, ea) = sum_returns 0 local in
      let (b, eb) = sum_returns local (add64 local remote) in
      let (c, ec) = sum_returns (add64 remote local) (length cdf.entries) in
      (
        if total_latency t a b c == 0 then 0 else (2 ^ 64 - 1) / total_latency t a b c,
        rw (ea, eb, ec) refl,
      )

  -- What is known of the best choice when all numbers below `local` have been looked at.
  pub record IsBest (local : ℕ) (best : Best) : Type 0 where
    pub fits : best.water_mark_remote + 3 * best.water_mark_local ≡ cache_size
    pub inside : best.water_mark_local < length cdf.entries
    pub beats :
        (other performance : ℕ)
        → other < local
        → 3 * other ≤ cache_size
        → calculate_performance cdf t other (remote_for other) ≡ ok performance
        → performance ≤ best.performance

  remote_lem :
      (local : ℕ) → 3 * local ≤ cache_size → sub64 cache_size (mul64 3 local) ≡ remote_for local
  remote_lem local h = omega (arith, room)

  better-IsBest :
      (local performance : ℕ) (best : Best)
      → local < length cdf.entries
      → 3 * local ≤ cache_size
      → calculate_performance cdf t local (remote_for local) ≡ ok performance
      → IsBest local best
      → IsBest (local + 1) (better performance local (remote_for local) best)
  better-IsBest local performance best lt le e b =
      elim (Bool-cases (ltb best.performance performance)) [
        | inl more ↦ rw more (record {
          fits = omega arith;
          inside = lt;
          beats = λ other p h₁ h₂ q. elim (ℕ_discrete other local) [
            | yes same ↦ omega (arith, agree other p same q)
            | no apart ↦ omega (arith, b.beats other p (omega arith) h₂ q, ltb→lt _ _ more)
          ];
        })
        | inr less ↦ rw less (record {
          fits = b.fits;
          inside = b.inside;
          beats = λ other p h₁ h₂ q. elim (ℕ_discrete other local) [
            | yes same ↦ ground (arith, agree other p same q)
            | no apart ↦ b.beats other p (omega arith) h₂ q
          ];
        })
      ]
    where
      agree :
          (other p : ℕ)
          → other ≡ local
          → calculate_performance cdf t other (remote_for other) ≡ ok p
          → p ≡ performance
      agree other p same q =
          ok_injective
            (sym (subst (λ o. calculate_performance cdf t o (remote_for o) ≡ ok p) same q) ∙ e)

  search_lem :
      (rounds local : ℕ) (best : Best)
      → local + rounds ≡ length cdf.entries
      → IsBest local best
      → (best' : Best) × (search cdf t cache_size rounds local best ≡ ok best')
        × IsBest (length cdf.entries) best'
  unfolding search
  search_lem zero local best e b =
      let same : local ≡ length cdf.entries = omega arith in (best, refl, rw (← same) b)
  search_lem (suc rounds) local best e b = elim (Bool-cases (ltb (cache_size / 3) local)) [
    | inl past ↦ (
      best,
      rw past refl,
      record {
        fits = b.fits;
        inside = b.inside;
        beats = λ other p h₁ h₂ q. b.beats other p (ground arith) h₂ q;
      },
    )
    | inr fits ↦
        let le : 3 * local ≤ cache_size = ground arith in
        let (performance, q) = performance_returns local (remote_for local) in
        let (best', run, b') =
          search_lem rounds (local + 1) (better performance local (remote_for local) best)
            (omega arith) (better-IsBest local performance best (omega arith) le q b) in
        (best', rw (fits, remote_lem local le, q) run, b')
  ]

  -- If the map of a distribution holds its cumulative frequencies, the keys of its entries are
  -- numbers below `2 ^ 31`, which `std::stoi` returns, and the cache size fits in 64 bits, the
  -- search returns. Its water marks share out the cache, three times the local one and once the
  -- remote one; no local water mark that is the index of an entry, and three times which fits in
  -- the cache, has a better performance; and the access rate, the bucket and the key that the cache
  -- is told are those of the entry at the local water mark, or `2 ^ 64 - 1` if that mark is 0.
  pub find_optimal_lem :
      ((i : ℕ) (e : Entry) → get_elem? cdf.entries i ≡ some e → e.key < 2 ^ 31)
      → (choice : Choice) × (e : Entry) × (find_optimal cdf t cache_size ≡ ok choice)
        × IsBest (length cdf.entries) choice.best
        × (get_elem? cdf.entries choice.best.water_mark_local ≡ some e)
        × (choice.access_rate ≡ (if choice.best.water_mark_local == 0 then 2 ^ 64 - 1 else e.freq))
        × (choice.bucket_id ≡ (if choice.best.water_mark_local == 0 then 2 ^ 64 - 1 else e.bucket))
        × (choice.key_id_cutoff ≡ (if choice.best.water_mark_local == 0 then 2 ^ 64 - 1 else e.key))
  unfolding find_optimal
  find_optimal_lem int_keys =
      let (best, run, b) =
        search_lem (length cdf.entries) 0
          (record { performance = 0; water_mark_local = 0; water_mark_remote = cache_size })
          (omega arith)
          (record {
            fits = omega arith;
            inside = v.some_entry;
            beats = λ other p h. absurd (omega arith);
          }) in
      let (e, at) = get_elem?-lt cdf.entries best.water_mark_local b.inside in
      let told : ℕ → ℕ = λ n. if best.water_mark_local == 0 then 2 ^ 64 - 1 else n in
      (
        record {
          best = best;
          access_rate = told e.freq;
          bucket_id = told e.bucket;
          key_id_cutoff = told e.key;
        },
        e,
        elim (Bool-cases (best.water_mark_local == 0)) [
          | inl zero_local ↦ rw (run, zero_local) refl
          | inr some_local ↦
              rw (run, some_local, at, stoi_lem e.key (int_keys best.water_mark_local e at)) refl
        ],
        b,
        at,
        refl,
        refl,
        refl,
      )
