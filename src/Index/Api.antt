-- ===== src/Index/Api.antt =====
-- What src/ldc.h uses of third_party/blkcache (the entry type of a cache index) and of
-- third_party/RDMA (memory that other servers write). Neither is part of the repository.
use twig_kv.Common.{ℕ, ◌≡◌, ◌&&◌, ◌==◌, if◌then◌else◌}

pub record IndexApi : Type 1 where
  -- `RDMACacheIndex`, its field `key_value_ptr_offset`, `KEY_VALUE_PTR_INVALID` and
  -- `InvalidRDMACacheIndex`
  pub CacheIndex : Type 0
  pub key_value_ptr_offset : CacheIndex → ℕ
  pub key_value_ptr_invalid : ℕ
  pub invalid_cache_index : CacheIndex
  -- The registered memory of the servers: `entry mem s t k` is entry `k` of the table that server
  -- `s` keeps for server `t`, and `store` is the transfer of one entry.
  pub Memory : Type 0
  pub entry : Memory → ℕ → ℕ → ℕ → CacheIndex
  pub store : Memory → ℕ → ℕ → ℕ → CacheIndex → Memory

-- What the code relies on: the invalid entry has the invalid pointer, and a transfer of one entry
-- changes that entry and no other.
pub record IndexLaws (api : IndexApi) : Type 0 where
  pub offset-invalid : api.key_value_ptr_offset api.invalid_cache_index ≡ api.key_value_ptr_invalid
  pub entry-store :
      (mem : api.Memory) (s t k : ℕ) (e : api.CacheIndex) (s' t' k' : ℕ)
      → api.entry (api.store mem s t k e) s' t' k'
        ≡ (if s == s' && (t == t' && k == k') then e else api.entry mem s' t' k')
