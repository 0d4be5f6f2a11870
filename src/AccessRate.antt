-- ===== src/AccessRate.antt =====
-- src/access_rate_calculations.cpp: how many of the most frequent keys each server should keep for
-- itself, found by the predicted performance of every choice.
pub mod Sums
pub mod Optimal
pub mod Distribution
use twig_kv.Common.{
  ℕ, zero, suc, ◌+◌, ◌-◌, ◌*◌, ◌/◌, ◌^◌, List, [], ◌∷◌, Option, none, some, Outcome, ok, undefined,
  ◌>>=◌, ltb, leb, ◌==◌, if◌then◌else◌, length, get_elem?, u64, add64, sub64, mul64, stoi,
}

-- One tuple of the first part of a `CDFType`: a key with its frequency and its bucket.
pub record Entry : Type 0 where
  pub freq : ℕ
  pub key : ℕ
  pub bucket : ℕ

-- `CDFType`: the keys, the most frequent first, and the cumulative frequency under each key. A key
-- that the map does not have yet gets zero when it is looked up.
pub record Cdf : Type 0 where
  pub entries : List Entry
  pub sums : ℕ → ℕ

-- An index past the end stands for the last entry. Without entries it wraps around.
abbrev pub clamp : Cdf → ℕ → ℕ
clamp cdf i = if leb (length cdf.entries) i then sub64 (length cdf.entries) 1 else i

-- `key_freq_bucket_map[key of entry i].first`
abbrev pub sum_at : Cdf → ℕ → Outcome ℕ
sum_at cdf i = elim (get_elem? cdf.entries i) [ none ↦ undefined | some e ↦ ok (cdf.sums e.key) ]

unfoldable pub get_sum_freq_till_index : Cdf → ℕ → ℕ → Outcome ℕ
get_sum_freq_till_index cdf start end = do
  a ← sum_at cdf (clamp cdf start)
  b ← sum_at cdf (clamp cdf end)
  ok (sub64 b a)

-- The average times of an access to the own cache, to the disk and to another server.
pub record Latencies : Type 0 where
  pub cache_ns_avg : ℕ
  pub disk_ns_avg : ℕ
  pub rdma_ns_avg : ℕ

-- The sum of the latencies of all accesses, from the numbers of the three kinds.
abbrev pub total_latency : Latencies → ℕ → ℕ → ℕ → ℕ
total_latency t locals remotes disks =
    add64
      (add64 (mul64 locals t.cache_ns_avg)
        (add64 (mul64 (mul64 2 remotes / 3) t.rdma_ns_avg) (mul64 (remotes / 3) t.cache_ns_avg)))
      (mul64 disks t.disk_ns_avg)

unfoldable pub calculate_performance : Cdf → Latencies → ℕ → ℕ → Outcome ℕ
unfolding get_sum_freq_till_index
calculate_performance cdf t water_mark_local water_mark_remote = do
  locals ← get_sum_freq_till_index cdf 0 water_mark_local
  remotes ← get_sum_freq_till_index cdf water_mark_local (add64 water_mark_local water_mark_remote)
  disks ←
      get_sum_freq_till_index cdf (add64 water_mark_remote water_mark_local) (length cdf.entries)
  let latency = total_latency t locals remotes disks
  ok (if latency == 0 then 0 else (2 ^ 64 - 1) / latency)

-- The best choice so far.
pub record Best : Type 0 where
  pub performance : ℕ
  pub water_mark_local : ℕ
  pub water_mark_remote : ℕ

-- One round of the loop with its new performance.
abbrev pub better : ℕ → ℕ → ℕ → Best → Best
better performance local remote best =
    if ltb best.performance performance
    then record { performance = performance; water_mark_local = local; water_mark_remote = remote }
    else best

-- The loop of `itr_through_all_the_perf_values_to_find_optimal`, from `local` on. An unsigned number
-- is not below zero, so its first `break` is never taken.
unfoldable pub search : Cdf → Latencies → ℕ → ℕ → ℕ → Best → Outcome Best
search cdf t cache_size zero local best = ok best
search cdf t cache_size (suc rounds) local best =
    let remote = sub64 cache_size (mul64 3 local) in
    if ltb (cache_size / 3) local
    then ok best
    else calculate_performance cdf t local remote >>= λ performance.
        search cdf t cache_size rounds (local + 1) (better performance local remote best)

-- What the cache is told: the water marks, and the frequency, the bucket and the key of the entry at
-- the local water mark, or `-1` for each of them if that is 0.
pub record Choice : Type 0 where
  pub best : Best
  pub access_rate : ℕ
  pub bucket_id : ℕ
  pub key_id_cutoff : ℕ

unfoldable pub find_optimal : Cdf → Latencies → ℕ → Outcome Choice
unfolding search
find_optimal cdf t cache_size =
    search cdf t cache_size (length cdf.entries) 0
      (record { performance = 0; water_mark_local = 0; water_mark_remote = cache_size })
    >>= λ best.
        if best.water_mark_local == 0
        then ok (record {
          best = best;
          access_rate = 2 ^ 64 - 1;
          bucket_id = 2 ^ 64 - 1;
          key_id_cutoff = 2 ^ 64 - 1;
        })
        else elim (get_elem? cdf.entries best.water_mark_local) [
          | none ↦ undefined
          | some e ↦ stoi e.key >>= λ key. ok (record {
            best = best;
            access_rate = e.freq;
            bucket_id = e.bucket;
            key_id_cutoff = key;
          })
        ]
