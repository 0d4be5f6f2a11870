-- ===== src/Examples/Others.antt =====
-- A snapshot of ten keys, a heap of two nodes, a pool of two buffers and a distribution of three keys.
use twig_kv.Common.{
  ℕ, zero, suc, ◌+◌, ◌-◌, ◌^◌, ◌≤◌, ◌<◌, ◌≡◌, refl, [], ◌∷◌, Option, some, ok, undefined, arith,
  get_elem?, ◌==◌, if◌then◌else◌, length,
}
use twig_kv.Snapshot.{Snapshot, update, cache_hits, new}
use twig_kv.Snapshot.Updates.{new-IsSized, update_out_of_range}
use twig_kv.MaxHeap.{MaxHeap, get_node, is_empty}
use twig_kv.MaxHeap.Drain.{IsHeap, IsTop, units, total, get_node_takes-IsTop}
use twig_kv.Storage as Storage
use twig_kv.Storage.{Storage, execute_pending}
use twig_kv.Storage.Pool.{IsPool, IsRead, new-IsPool, read-IsPool, execute_pending-IsPool}
use twig_kv.AccessRate.{Entry, Cdf, Latencies, Choice, get_sum_freq_till_index, find_optimal}
use twig_kv.AccessRate.Sums.{IsCdf, cumulative, get_sum_freq_till_index_lem}
use twig_kv.AccessRate.Optimal.{IsBest, find_optimal_lem}
use twig_kv.Examples.Setup.{ten_keys}

abbrev fresh : Snapshot
fresh = new ten_keys

-- Key 10, the last one of the data set.
update_out_of_range_example : update cache_hits 10 fresh ≡ undefined
unfolding new
update_out_of_range_example =
    update_out_of_range cache_hits 10 fresh (new-IsSized ten_keys refl) (omega arith)

abbrev two_nodes : MaxHeap
two_nodes = record { free_nodes = 3; index = 7 } ∷ record { free_nodes = 1; index = 8 } ∷ []

two_nodes-IsHeap : IsHeap two_nodes
two_nodes-IsHeap = (omega arith, omega arith, (omega arith, omega arith, tt))

get_node_takes-IsTop_example :
    (i : ℕ) × (h' : MaxHeap) × (top : ℕ) × (get_node two_nodes ≡ ok (i, h'))
    × IsHeap h'
    × IsTop top two_nodes
    × (top ≤ units i two_nodes)
    × (total h' + 1 ≡ 4)
    × ((j : ℕ) → units j h' + (if j == i then 1 else 0) ≡ units j two_nodes)
unfolding is_empty
get_node_takes-IsTop_example = get_node_takes-IsTop two_nodes two_nodes-IsHeap refl

abbrev pool : Storage
pool = Storage.new 3 2

read-IsPool_example :
    (result : Option Storage) × (Storage.read 1 pool ≡ ok result) × IsRead 3 2 pool result
read-IsPool_example = read-IsPool 3 2 1 pool (omega arith) (new-IsPool 3 2)

-- Buffer 0 and token 0 are in use.
abbrev busy : Storage
busy = record {
  free_request_token_queue = 1 ∷ 2 ∷ [];
  free_queue = 1 ∷ [];
  pending_read_queue = record { data_buffer = 0; token = 0; remote_index = 1 } ∷ [];
}

busy-IsPool : IsPool 3 2 busy
busy-IsPool = record {
  one_token = λ i. ground arith;
  one_buffer = λ i. ground arith;
  tokens_left = refl;
  buffers_left = refl;
}

execute_pending-IsPool_example :
    IsPool 3 2 (execute_pending busy)
    × ((execute_pending busy).pending_read_queue ≡ [])
    × (length (execute_pending busy).free_queue ≡ 2)
execute_pending-IsPool_example = execute_pending-IsPool 3 2 busy busy-IsPool

abbrev three_keys : Cdf
three_keys = record {
  entries =
      record { freq = 6; key = 1; bucket = 60 }
      ∷ record { freq = 3; key = 2; bucket = 90 }
      ∷ record { freq = 1; key = 3; bucket = 100 }
      ∷ [];
  sums = λ k. if k == 1 then 6 else if k == 2 then 9 else if k == 3 then 10 else 0;
}

three_keys-IsCdf : IsCdf three_keys
three_keys-IsCdf = record {
  some_entry = omega arith;
  short = omega arith;
  summed = at;
  bounded = omega arith;
}
  where
    at :
        (i : ℕ) (e : Entry)
        → get_elem? three_keys.entries i ≡ some e
        → three_keys.sums e.key ≡ cumulative three_keys.entries i
    at zero e h = ground arith
    at (suc zero) e h = ground arith
    at (suc (suc zero)) e h = ground arith
    at (suc (suc (suc i))) e h = absurd cc

get_sum_freq_till_index_lem_example : get_sum_freq_till_index three_keys 0 5 ≡ ok 4
get_sum_freq_till_index_lem_example =
    get_sum_freq_till_index_lem three_keys 0 5 three_keys-IsCdf (omega arith)

abbrev latencies : Latencies
latencies = record { cache_ns_avg = 100; disk_ns_avg = 100000; rdma_ns_avg = 5000 }

keys_of_three : (i : ℕ) (e : Entry) → get_elem? three_keys.entries i ≡ some e → e.key < 2 ^ 31
keys_of_three zero e at = ground arith
keys_of_three (suc zero) e at = ground arith
keys_of_three (suc (suc zero)) e at = ground arith
keys_of_three (suc (suc (suc i))) e at = absurd cc

find_optimal_lem_example :
    (choice : Choice) × (e : Entry) × (find_optimal three_keys latencies 3 ≡ ok choice)
    × IsBest three_keys latencies 3 three_keys-IsCdf (omega arith) 3 choice.best
    × (get_elem? three_keys.entries choice.best.water_mark_local ≡ some e)
    × (choice.access_rate ≡ (if choice.best.water_mark_local == 0 then 2 ^ 64 - 1 else e.freq))
    × (choice.bucket_id ≡ (if choice.best.water_mark_local == 0 then 2 ^ 64 - 1 else e.bucket))
    × (choice.key_id_cutoff ≡ (if choice.best.water_mark_local == 0 then 2 ^ 64 - 1 else e.key))
find_optimal_lem_example =
    find_optimal_lem three_keys latencies 3 three_keys-IsCdf (omega arith) keys_of_three
