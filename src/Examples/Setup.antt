-- ===== src/Examples/Setup.antt =====
-- The parameters of the models as concrete functions, and the laws that they satisfy.
use twig_kv.Common.{
  ok, ℕ, zero, suc, ◌+◌, ◌-◌, ◌<◌, ◌≡◌, refl, ap, ◌∙◌, true, false, ◌&&◌, List, [], ◌∷◌, none, some,
  ok, arith, ◌==◌, leb, ltb, if◌then◌else◌, length, get_or,
}
use twig_kv.Config.{Configuration, ycsb}
use twig_kv.Placement.{OneSided}
use twig_kv.Placement.Blocks.{OneSidedLaws}
use twig_kv.Index.Api.{IndexApi, IndexLaws}
use twig_kv.Server.Api.{BlockCacheApi, Settings, other}

-- Ten keys on three nodes.
abbrev pub ten_keys : Configuration
ten_keys = record {
  num_key_value_pairs = 10;
  num_nodes = 3;
  key_size = 8;
  value_size = 1;
  total_operations = 4;
  distribution_type = ycsb;
  hot_thread = 0;
  rdma_thread = 0;
  rdma_async = true;
  disk_async = true;
  operations_pollute_cache = true;
  use_cache_logs = false;
  cache_log_sync_every_x_operations = 2;
  dump_snapshot_period_ms = 100;
}

abbrev pub Bytes : Type 0
Bytes = ℕ → ℕ → ℕ

abbrev pub read_from : Bytes → ℕ → ℕ → ℕ → List ℕ
read_from m s off zero = []
read_from m s off (suc n) = m s off ∷ read_from m s (off + 1) n

abbrev pub write_to : Bytes → ℕ → ℕ → List ℕ → Bytes
write_to m s off bs t a =
    if s == t && (leb off a && ltb a (off + length bs)) then get_or bs (a - off) 0 else m t a

abbrev pub network : OneSided
network = record { Memory = Bytes; byte = λ m. m; write = write_to; read = read_from }

length-read_from : (m : Bytes) (s off n : ℕ) → length (read_from m s off n) ≡ n
length-read_from m s off zero = refl
length-read_from m s off (suc n) = ap suc (length-read_from m s (off + 1) n)

get_or-read_from :
    (m : Bytes) (s off n i : ℕ) → i < n → get_or (read_from m s off n) i 0 ≡ m s (off + i)
get_or-read_from m s off zero i h = elim h [ ]
get_or-read_from m s off (suc n) zero h = ap (m s) (omega arith)
get_or-read_from m s off (suc n) (suc i) h =
    get_or-read_from m s (off + 1) n i (omega arith) ∙ ap (m s) (omega arith)

pub network_laws : OneSidedLaws network
network_laws = record {
  byte-write = λ m s off bs t a. refl;
  length-read = length-read_from;
  get_or-read = get_or-read_from;
}

abbrev pub Tables : Type 0
Tables = ℕ → ℕ → ℕ → ℕ

abbrev pub put_entry : Tables → ℕ → ℕ → ℕ → ℕ → Tables
put_entry mem s t k e s' t' k' = if s == s' && (t == t' && k == k') then e else mem s' t' k'

abbrev pub tables : IndexApi
tables = record {
  CacheIndex = ℕ;
  key_value_ptr_offset = λ e. e;
  key_value_ptr_invalid = 999;
  invalid_cache_index = 999;
  Memory = Tables;
  entry = λ mem. mem;
  store = put_entry;
}

pub tables_laws : IndexLaws tables
tables_laws = record { offset-invalid = refl; entry-store = λ mem s t k e s' t' k'. refl }

-- A cache of one key; the value of a key is the key.
abbrev pub one_key : BlockCacheApi
one_key = record {
  State = ℕ;
  exists_in_cache = λ key s. key == s;
  get_cached = λ key s. (key ∷ [], s);
  get = λ key s. ok (key ∷ [], key);
  put = λ key value s. ok key;
  increment_cache_miss = λ s. s;
  reset_cache_info = λ s. s;
  update_frequency = λ key s. s;
  cache_put = λ key value s. ok key;
  put_nchance = λ key value s. ok (none, key);
  put_access_rate_match = λ key value s. ok (false, s);
  put_singleton = λ key value singleton forward_count s. ok key;
  delete_key = λ key s. if key == s then 0 else s;
  db_get = λ key s. some (key ∷ []);
}

-- Server 1 of two, whose machines are 1 and 2.
abbrev pub settings : Settings
settings = record {
  ops_config = ten_keys;
  policy_type = other;
  one_sided_rdma_enabled = true;
  use_cache_indexing = true;
  ingest_block_index = true;
  block_db_async = true;
  port = λ i. 7000 + i;
  machine_index = 1;
  thread_index = 0;
  server_start_index = 1;
  num_servers = 2;
  key_min = 1;
  key_max = 6;
}
