-- ===== src/Config.antt =====
-- `Configuration` of src/operations.h. The `int` fields are the non-negative values that a
-- configuration file holds. The fields of type `double` and `float` are arguments of the functions
-- that use them, and the fields that no modelled function reads are left out.
use twig_kv.Common.{ℕ, Bool}

-- `enum DistributionType`
pub data DistributionType : Type 0 where
  random_distribution partitioned_distribution zipfian_distribution : DistributionType
  zipfian_partitioned_distribution single_node_hot_keys : DistributionType
  single_node_hot_keys_to_second_node_only : DistributionType
  single_node_hot_keys_to_second_node_rdma_only : DistributionType
  single_node_hot_keys_to_second_node_split : DistributionType
  ycsb : DistributionType

pub record Configuration : Type 0 where
  pub num_key_value_pairs : ℕ
  pub num_nodes : ℕ
  pub key_size : ℕ
  pub value_size : ℕ
  pub total_operations : ℕ
  pub distribution_type : DistributionType
  pub hot_thread : ℕ
  pub rdma_thread : ℕ
  pub rdma_async : Bool
  pub disk_async : Bool
  pub operations_pollute_cache : Bool
  pub use_cache_logs : Bool
  pub cache_log_sync_every_x_operations : ℕ
  pub dump_snapshot_period_ms : ℕ
