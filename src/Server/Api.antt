-- ===== src/Server/Api.antt =====
-- What the server uses of third_party/blkcache (the block cache and its database), and the settings
-- that it reads. The submodule is not part of the repository.
use twig_kv.Common.{ℕ, Bool, List, Option, Outcome}
use twig_kv.Config.{Configuration}

-- What `put_nchance` returns when it evicts a singleton: `EvictionCallbackData`.
pub record Evicted : Type 0 where
  pub key : ℕ
  pub value : List ℕ
  pub singleton : Bool
  pub forward_count : ℕ

-- `BlockCache`. The cache calls back on writes and evictions while it runs: what the callbacks do
-- to the cache indexes is the subject of Index.Coherence. A callback can stop in `panic`
-- (Index.Tables), and so can the calls that write, which run it. A call that waits for other servers
-- (Index.Logs) is taken when they are ready.
pub record BlockCacheApi : Type 1 where
  pub State : Type 0
  pub exists_in_cache : ℕ → State → Bool
  -- `get(key, false, true)` on a key that is in the cache
  pub get_cached : ℕ → State → List ℕ × State
  -- `get(key)`, which reads the database on a miss and adds the key to the cache
  pub get : ℕ → State → Outcome (List ℕ × State)
  pub put : ℕ → List ℕ → State → Outcome State
  pub increment_cache_miss : State → State
  pub reset_cache_info : State → State
  -- `get_cache()->...`
  pub update_frequency : ℕ → State → State
  pub cache_put : ℕ → List ℕ → State → Outcome State
  pub put_nchance : ℕ → List ℕ → State → Outcome (Option Evicted × State)
  pub put_access_rate_match : ℕ → List ℕ → State → Outcome (Bool × State)
  pub put_singleton : ℕ → List ℕ → Bool → ℕ → State → Outcome State
  pub delete_key : ℕ → State → State
  -- `get_db()->get`
  pub db_get : ℕ → State → Option (List ℕ)

-- `config.policy_type`
pub data Policy : Type 0 where
  nchance access_rate access_rate_dynamic other : Policy

-- The settings of one server thread: those of `BlockCacheConfig` and `Configuration` that it reads,
-- its place among the machines, and the range of keys that it may add to its cache.
pub record Settings : Type 0 where
  pub ops_config : Configuration
  pub policy_type : Policy
  pub one_sided_rdma_enabled : Bool
  pub use_cache_indexing : Bool
  pub ingest_block_index : Bool
  -- `config.db.block_db.async`
  pub block_db_async : Bool
  -- `remote_machine_configs[i].port`
  pub port : ℕ → ℕ
  pub machine_index : ℕ
  pub thread_index : ℕ
  pub server_start_index : ℕ
  pub num_servers : ℕ
  pub key_min : ℕ
  pub key_max : ℕ
