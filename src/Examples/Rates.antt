-- ===== src/Examples/Rates.antt =====
-- The cache has counted accesses to keys 2 and 10 of ten keys.
use twig_kv.Common.{
  ℕ, ◌+◌, ◌*◌, ◌≤◌, ◌≡◌, ◌≢◌, refl, List, [], ◌∷◌, Bool, Outcome, ok, none, undefined, arith, leb,
  ◌&&◌, if◌then◌else◌,
}
use twig_kv.AccessRate.{Entry, Cdf, Latencies, Choice}
use twig_kv.AccessRate.Sums.{IsCdf}
use twig_kv.AccessRate.Distribution.{KeyFreq, get_and_sort_freq, access_rate_round}
use twig_kv.AccessRate.Distribution.Emit.{over, pairs, is_key}
use twig_kv.AccessRate.Distribution.Complete.{Counted, freq_of, get_and_sort_freq_lem}
use twig_kv.AccessRate.Distribution.Round.{access_rate_round_lem, access_rate_round-idle}

abbrev counts : List KeyFreq
counts = record { freq = 3; key = 2 } ∷ record { freq = 9; key = 10 } ∷ []

counts-Counted : Counted counts 10
counts-Counted = record {
  some_key = omega arith;
  int_keys = omega arith;
  fits = omega arith;
  distinct = λ k. ground arith;
  known = λ k h. (ground arith, ground arith);
  bounded = omega arith;
}

get_and_sort_freq_lem_example :
    (cdf : Cdf) × (marks : List Bool) × (get_and_sort_freq counts 10 none ≡ ok (cdf, marks))
    × ((k : ℕ) → over (is_key k) cdf.entries ≡ (if leb 1 k && leb k 10 then 1 else 0))
    × ((k : ℕ) → over (freq_of k) cdf.entries ≡ pairs (freq_of k) counts)
    × IsCdf cdf
get_and_sort_freq_lem_example = get_and_sort_freq_lem counts 10 none counts-Counted tt (omega arith)

abbrev latencies : Latencies
latencies = record { cache_ns_avg = 100; disk_ns_avg = 100000; rdma_ns_avg = 5000 }

access_rate_round_lem_example :
    (choice : Choice) × (marks : List Bool) × (access_rate_round latencies 6 counts 10 none
      ≡ ok (choice, marks))
    × (choice.best.water_mark_remote + 3 * choice.best.water_mark_local ≡ 6)
    × (choice.best.water_mark_local ≢ 0
        → (1 ≤ choice.key_id_cutoff)
          × (choice.key_id_cutoff ≤ 10)
          × (choice.access_rate ≡ pairs (freq_of choice.key_id_cutoff) counts))
access_rate_round_lem_example =
    access_rate_round_lem latencies 6 (omega arith) counts 10 none counts-Counted tt (omega arith)

-- No key has been asked for.
abbrev idle : List KeyFreq
idle = record { freq = 0; key = 2 } ∷ []

idle-Counted : Counted idle 10
idle-Counted = record {
  some_key = omega arith;
  int_keys = omega arith;
  fits = omega arith;
  distinct = λ k. ground arith;
  known = λ k h. (ground arith, ground arith);
  bounded = omega arith;
}

access_rate_round-idle_example : access_rate_round latencies 6 idle 10 none ≡ undefined
access_rate_round-idle_example =
    access_rate_round-idle latencies 6 (omega arith) idle 10 none idle-Counted tt refl

-- Two accesses to key 2 of three keys and one to key 1. Within a bucket the greater key comes first.
abbrev entries_of : Outcome (Cdf × List Bool) → List Entry
entries_of r = elim r [ ok s ↦ s.0.entries | _ ↦ [] ]

entries_run :
    entries_of
      (get_and_sort_freq (record { freq = 1; key = 1 } ∷ record { freq = 2; key = 2 } ∷ []) 3 none)
    ≡ record { freq = 2; key = 2; bucket = 66 }
      ∷ record { freq = 0; key = 3; bucket = 100 }
      ∷ record { freq = 1; key = 1; bucket = 100 }
      ∷ []
unfolding get_and_sort_freq
entries_run = refl
