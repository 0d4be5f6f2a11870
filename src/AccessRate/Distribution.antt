-- ===== src/AccessRate/Distribution.antt =====
-- src/access_rate_calculations.cpp: `get_and_sort_freq`, which builds the distribution of the accesses
-- from the frequencies that the cache has counted. A key is the number that it is the decimal
-- spelling of.
pub mod Emit
pub mod Marks
pub mod Complete
pub mod Round
use twig_kv.Common.{
  ℕ, zero, suc, ◌+◌, ◌*◌, ◌/◌, ◌%◌, ◌^◌, List, [], ◌∷◌, ◌++◌, Bool, true, false, ◌&&◌, ◌||◌, Option,
  none, some, Outcome, ok, panic, undefined, ◌>>=◌, ltb, leb, ◌==◌, if◌then◌else◌, length,
  get_elem?, to_string, set, take, replicate, sort, add64, mul64,
}
use twig_kv.AccessRate.{Entry, Cdf, Latencies, Choice, find_optimal}

-- A key with its frequency.
pub record KeyFreq : Type 0 where
  pub freq : ℕ
  pub key : ℕ

-- `>` on strings.
unfoldable pub text_greater : List ℕ → List ℕ → Bool
text_greater [] t = false
text_greater (c ∷ s) [] = true
text_greater (c ∷ s) (d ∷ t) = ltb d c || ((c == d) && text_greater s t)

-- `std::greater<std::pair<uint64_t, std::string>>`
unfoldable pub greater : KeyFreq → KeyFreq → Bool
unfolding to_string text_greater
greater a b =
    ltb b.freq a.freq || ((a.freq == b.freq) && text_greater (to_string a.key) (to_string b.key))

-- `key_map[i] = mark`
abbrev pub write_mark : ℕ → Bool → List Bool → Outcome (List Bool)
write_mark i mark marks = if ltb i (length marks) then ok (set marks i mark) else undefined

-- The loop that clears `key_map`, from `i` on.
unfoldable pub clear_marks : ℕ → ℕ → List Bool → Outcome (List Bool)
clear_marks zero i marks = ok marks
clear_marks (suc rounds) i marks = write_mark i false marks >>= clear_marks rounds (i + 1)

-- The loop that marks the keys that have a frequency. `std::stoi` throws at a number that is no
-- `int`.
unfoldable pub mark_keys : List KeyFreq → List Bool → Outcome (List Bool)
mark_keys [] marks = ok marks
mark_keys (e ∷ es) marks =
    if ltb e.key (2 ^ 31) then write_mark e.key true marks >>= mark_keys es else panic

-- The loop that appends the keys that are not marked, from `i` on.
unfoldable pub missing_keys : ℕ → ℕ → List Bool → Outcome (List KeyFreq)
missing_keys zero i marks = ok []
missing_keys (suc rounds) i marks = elim (get_elem? marks i) [
  | none ↦ undefined
  | some mark ↦ missing_keys rounds (i + 1) marks >>= λ rest.
      ok (if mark then rest else record { freq = 0; key = i } ∷ rest)
]

-- `total_freq`
unfoldable pub sum_freq : List KeyFreq → ℕ → ℕ
sum_freq [] total_freq = total_freq
sum_freq (kv ∷ kvs) total_freq = sum_freq kvs (add64 total_freq kv.freq)

-- An entry of the map `cdf_buckets`, which is kept in the order of the percentiles.
pub record Bucket : Type 0 where
  pub percentile : ℕ
  pub keys : List KeyFreq

-- `cdf_buckets[percentile].push_back(kv)`
unfoldable pub push_bucket : ℕ → KeyFreq → List Bucket → List Bucket
push_bucket percentile kv [] = record { percentile = percentile; keys = kv ∷ [] } ∷ []
push_bucket percentile kv (b ∷ bs) =
    if percentile == b.percentile
    then record b { keys = b.keys ++ kv ∷ [] } ∷ bs
    else if ltb percentile b.percentile
    then record { percentile = percentile; keys = kv ∷ [] } ∷ b ∷ bs
    else b ∷ push_bucket percentile kv bs

-- The loop that fills the buckets. It divides by `total_freq`.
unfoldable pub fill_buckets : ℕ → List KeyFreq → ℕ → List Bucket → Outcome (List Bucket)
unfolding push_bucket
fill_buckets total_freq [] cumulative_freq buckets = ok buckets
fill_buckets total_freq (kv ∷ kvs) cumulative_freq buckets =
    let sum = add64 cumulative_freq kv.freq in
    if total_freq == 0
    then undefined
    else fill_buckets total_freq kvs sum (push_bucket (mul64 sum 100 / total_freq) kv buckets)

-- `key_freq_bucket_map[key]` is set.
abbrev pub set_sum : ℕ → ℕ → (ℕ → ℕ) → ℕ → ℕ
set_sum key sum sums k = if k == key then sum else sums k

-- The inner loop that writes the result, with `total_cum_sum`.
unfoldable pub emit_keys : ℕ → List KeyFreq → ℕ → Cdf → ℕ × Cdf
emit_keys percentile [] total_cum_sum cdf = (total_cum_sum, cdf)
emit_keys percentile (it ∷ its) total_cum_sum cdf =
    let sum = add64 total_cum_sum it.freq in
    emit_keys percentile its sum (record {
      entries = cdf.entries ++ record { freq = it.freq; key = it.key; bucket = percentile } ∷ [];
      sums = set_sum it.key sum cdf.sums;
    })

abbrev pub key_greater : KeyFreq → KeyFreq → Bool
key_greater a b = ltb b.key a.key

-- The outer loop, over the buckets in the order of their percentiles.
unfoldable pub emit_buckets : List Bucket → ℕ → Cdf → Cdf
unfolding emit_keys sort
emit_buckets [] total_cum_sum cdf = cdf
emit_buckets (b ∷ bs) total_cum_sum cdf =
    let (sum, next) = emit_keys b.percentile (sort key_greater b.keys) total_cum_sum cdf in
    emit_buckets bs sum next

-- What is built from the list that has all keys.
unfoldable pub distribute : List KeyFreq → Outcome Cdf
unfolding sum_freq fill_buckets emit_buckets
distribute all = fill_buckets (sum_freq all 0) all 0 [] >>= λ buckets.
    ok (emit_buckets buckets 0 (record { entries = []; sums = λ key. 0 }))

-- `key_map` is allocated in the first call and kept.
abbrev pub allocate : ℕ → Option (List Bool) → List Bool
allocate total_keys none = replicate (suc total_keys) false
allocate total_keys (some marks) = marks

-- The result with the new `key_map`.
unfoldable pub get_and_sort_freq : List KeyFreq → ℕ → Option (List Bool) → Outcome (Cdf × List Bool)
unfolding greater sort clear_marks mark_keys missing_keys distribute
get_and_sort_freq key_freq total_keys key_map = do
  let sorted = take total_keys (sort greater key_freq)
  cleared ← clear_marks total_keys 1 (allocate total_keys key_map)
  marks ← mark_keys sorted cleared
  missing ← missing_keys total_keys 1 marks
  cdf ← distribute (sorted ++ missing)
  ok (cdf, marks)

-- `get_keys_under_l`: `i` stops at `L` and at the end.
unfoldable pub get_keys_under_l : List KeyFreq → ℕ → List ℕ
get_keys_under_l cdf zero = []
get_keys_under_l [] (suc l) = []
get_keys_under_l (e ∷ es) (suc l) = e.key ∷ get_keys_under_l es l

-- A round of the thread that tunes the cache: the distribution is built and the best choice looked
-- for in it. The frequencies are those after `clear_frequency`.
unfoldable pub access_rate_round :
    Latencies → ℕ → List KeyFreq → ℕ → Option (List Bool) → Outcome (Choice × List Bool)
unfolding get_and_sort_freq find_optimal
access_rate_round t cache_size key_freq total_keys key_map = do
  (cdf, marks) ← get_and_sort_freq key_freq total_keys key_map
  choice ← find_optimal cdf t cache_size
  ok (choice, marks)
