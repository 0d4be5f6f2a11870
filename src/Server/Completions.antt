-- ===== src/Server/Completions.antt =====
-- What the callbacks of the asynchronous reads do, which src/ldc.cpp gives to the database and to
-- the key-value storage of the other servers, and the background thread of src/async_rdma.h.
use twig_kv.Common.{
  ℕ, ◌+◌, ◌-◌, ◌%◌, Bool, true, false, ◌&&◌, List, none, some, Outcome, ok, ◌>>=◌, ◌==◌,
  if◌then◌else◌, add64, take, leb, ltb,
}
use twig_kv.Index.Api.{IndexApi}
use twig_kv.Index.Tables.{update_local_key}
use twig_kv.Placement.{OneSided}
use twig_kv.Snapshot.{access_rate, remote_disk_access}
use twig_kv.Server.Api.{BlockCacheApi, Settings, Policy, nchance, access_rate_dynamic, other}
use twig_kv.Server.State.{
  Server, always, in_range, never, DiskRead, IndexRead, AsyncRdmaOp, response_ok,
  append_to_rdma_get_response_queue, append_to_rdma_block_cache_request_queue,
  append_singleton_put_request,
}
use twig_kv.Server.Handler.{count, count_rdma, fetch_from_disk}

-- Whether the callback of a database read adds the value to the cache.
abbrev pub keeps : Settings → DiskRead → Bool
keeps config r = elim r.keep [
  | always ↦ true
  | in_range ↦ leb config.key_min r.key && ltb r.key config.key_max
  | never ↦ false
]

module _ {cache : BlockCacheApi} {indexes : IndexApi} {net : OneSided} (config : Settings) where
  -- The callback of `get_async` with the value that was read.
  unfoldable pub disk_done :
      DiskRead → List ℕ → Server cache indexes net → Outcome (Server cache indexes net)
  disk_done r value w =
      (if keeps config r
        then (cache.cache_put r.key value w.block_cache >>= λ state.
            ok (record w { block_cache = state }))
        else ok w)
      >>= λ w₁.
          ok (append_to_rdma_block_cache_request_queue r.index r.port response_ok r.key value w₁)

  -- `policy_type == "nchance"`: a singleton that leaves the cache goes to the next server.
  unfoldable pub keep_nchance :
      ℕ → List ℕ → Server cache indexes net → Outcome (Server cache indexes net)
  keep_nchance key value w = cache.put_nchance key value w.block_cache >>= λ r.
      let w₁ = record w { block_cache = r.1 } in
      elim r.0 [
        | none ↦ ok w₁
        | some e ↦ ok (
            append_singleton_put_request
              ((config.machine_index - config.server_start_index + 1) % config.num_servers
                + config.server_start_index)
              (config.port config.machine_index + config.thread_index) e.key e.value e.singleton
              e.forward_count w₁)
      ]

  -- `policy_type == "access_rate"` and `"access_rate_dynamic"`
  unfoldable pub keep_access_rate :
      ℕ → List ℕ → Server cache indexes net → Outcome (Server cache indexes net)
  keep_access_rate key value w = cache.put_access_rate_match key value w.block_cache >>= λ r.
      let w₁ = record w { block_cache = r.1 } in
      if r.0
      then count config access_rate key (record w₁ {
        counters = record w₁.counters {
          cache_freq_addition = add64 w₁.counters.cache_freq_addition 1;
        };
      })
      else ok w₁

  unfoldable pub keep_value :
      ℕ → List ℕ → Server cache indexes net → Outcome (Server cache indexes net)
  unfolding keep_nchance keep_access_rate
  keep_value key value w = elim config.policy_type [
    | nchance ↦ keep_nchance key value w
    | Policy.access_rate ↦ keep_access_rate key value w
    | access_rate_dynamic ↦ keep_access_rate key value w
    | other ↦ ok w
  ]

  -- The callback of a read by the cache index, with the entry that was read: its key and its bytes.
  -- Another key means that the index was out of date, and the value comes from the disk instead.
  unfoldable pub index_done :
      IndexRead → ℕ → List ℕ → Server cache indexes net → Outcome (Server cache indexes net)
  unfolding keep_value
  index_done r key_index bytes w =
      let w₁ = count_rdma config w in
      let value = take config.ops_config.value_size bytes in
      if key_index == r.expected_key
      then (do
        w₂ ← keep_value key_index value w₁
        ok (append_to_rdma_get_response_queue r.index r.port response_ok value w₂))
      else do
        w₂ ← count config remote_disk_access r.expected_key (record w₁ {
          counters = record w₁.counters {
            remote_disk_access = add64 w₁.counters.remote_disk_access 1;
          };
        })
        fetch_from_disk config r.index r.port r.expected_key false (record w₂ {
          cache_indexes =
              update_local_key indexes config.num_servers
                (config.machine_index - config.server_start_index) r.expected_key key_index
                w₂.cache_indexes;
        })

  -- One op of `background_work` that has completed: its response is queued and the op is free again.
  -- An op that has not completed goes to the back of the queue, so the ops complete in any order.
  unfoldable pub rdma_done :
      AsyncRdmaOp → List ℕ → Server cache indexes net → Server cache indexes net
  rdma_done op block w =
      let w₁ =
        append_to_rdma_get_response_queue op.index op.port response_ok
          (take config.ops_config.value_size block) w in
      record w₁ { free_ops = λ s. if s == op.node then w₁.free_ops s + 1 else w₁.free_ops s }
