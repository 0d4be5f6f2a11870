-- ===== src/Server/Handler.antt =====
-- The handler of `server_worker` of src/ldc.cpp: what the server does with a request. A key is given
-- by its number, which the code gets by `std::stoi`.
use twig_kv.Common.{
  ℕ, ◌-◌, Bool, true, false, not, ◌&&◌, List, [], ◌∷◌, ◌++◌, none, some, Outcome, ok, panic,
  undefined, ◌>>=◌, ◌==◌, if◌then◌else◌, add64, take,
}
use twig_kv.Index.Api.{IndexApi}
use twig_kv.Index.Tables.{read_callback}
use twig_kv.Placement.{OneSided, calculate_node_and_offset, read_correct_node}
use twig_kv.Snapshot.{
  Counter, update, total_accesses, cache_hits, cache_miss, disk_access, local_disk_access,
}
use twig_kv.Server.Api.{BlockCacheApi, Settings}
use twig_kv.Server.State.{
  Server, Keep, always, in_range, never, send_put_response, send_get_response, response_ok,
}

module _ {cache : BlockCacheApi} {indexes : IndexApi} {net : OneSided} (config : Settings) where
  -- `snapshot->update_...(key)`
  unfoldable pub count : Counter → ℕ → Server cache indexes net → Outcome (Server cache indexes net)
  count counter key w = do s ← update counter key w.snapshot; ok (record w { snapshot = s })

  -- `get_async`, which returns at once
  abbrev pub get_async : ℕ → ℕ → ℕ → Keep → Server cache indexes net → Server cache indexes net
  get_async index port key keep w = record w {
    disk_reads = w.disk_reads ++ record { index = index; port = port; key = key; keep = keep } ∷ [];
  }

  abbrev pub count_disk_op : Server cache indexes net → Server cache indexes net
  count_disk_op w = record w {
    counters = record w.counters {
      total_disk_ops_executed = add64 w.counters.total_disk_ops_executed 1;
    };
  }

  -- `fetch_from_disk` under `DISK_ASYNC`: the callback of the read sends the response.
  abbrev pub fetch_async : ℕ → ℕ → ℕ → Bool → Server cache indexes net → Server cache indexes net
  fetch_async index port key add_to_cache w = count_disk_op (
      get_async index port key
        (if config.ops_config.operations_pollute_cache && add_to_cache
          then always
          else if add_to_cache
          then in_range
          else never)
        w)

  -- `fetch_from_disk` without `DISK_ASYNC`: the value is read and sent at once.
  unfoldable pub fetch_now :
      ℕ → ℕ → ℕ → Bool → Server cache indexes net → Outcome (Server cache indexes net)
  fetch_now index port key add_to_cache w =
      if config.ops_config.operations_pollute_cache && add_to_cache
      then (cache.get key w.block_cache >>= λ r. ok (
          send_get_response index port response_ok r.0
            (count_disk_op (record w { block_cache = r.1 }))))
      else elim (cache.db_get key w.block_cache) [
        | none ↦ panic
        | some value ↦ ok (send_get_response index port response_ok value (count_disk_op w))
      ]

  unfoldable pub fetch_from_disk :
      ℕ → ℕ → ℕ → Bool → Server cache indexes net → Outcome (Server cache indexes net)
  unfolding count fetch_now
  fetch_from_disk index port key add_to_cache w = do
    w₁ ← count disk_access key w
    if config.ops_config.disk_async
        then ok (fetch_async index port key add_to_cache w₁)
        else fetch_now index port key add_to_cache w₁

  -- `read_callback`: a read of the first other server that may have the key is posted, if there is one.
  -- The call of `RDMADataWithQueue::read` waits until a buffer is free, as Storage models it; here it
  -- is taken to have one, so that nothing is said of a handler that waits there for ever.
  unfoldable pub read_by_index :
      ℕ → ℕ → ℕ → Server cache indexes net → Server cache indexes net × Bool
  read_by_index index port key w =
      elim (read_callback indexes config.num_servers
        (config.machine_index - config.server_start_index) key w.cache_indexes) [
          | none ↦ (w, false)
          | some _ ↦ (
            record w {
              index_reads =
                  w.index_reads ++ record { index = index; port = port; expected_key = key } ∷ [];
            },
            true,
          )
        ]

  -- `rdma_reader_thread` under `RDMA_ASYNC`: without a free op the code posts the read with a null
  -- buffer.
  unfoldable pub read_async :
      ℕ → ℕ → ℕ → Server cache indexes net → Outcome (Server cache indexes net)
  read_async index port key w = do
    p ← calculate_node_and_offset config.ops_config key
    if w.free_ops p.node_index == 0
        then undefined
        else ok (record w {
          free_ops = λ s. if s == p.node_index then w.free_ops s - 1 else w.free_ops s;
          rdma_ops =
              w.rdma_ops
              ++ record { node = p.node_index; offset = p.offset; index = index; port = port } ∷ [];
        })

  abbrev pub count_rdma : Server cache indexes net → Server cache indexes net
  count_rdma w = record w {
    counters = record w.counters { total_rdma_executed = add64 w.counters.total_rdma_executed 1 };
  }

  -- The branch without `use_cache_indexing`.
  unfoldable pub read_by_placement :
      ℕ → ℕ → ℕ → Server cache indexes net → Outcome (Server cache indexes net)
  unfolding read_async
  read_by_placement index port key w =
      if config.ops_config.rdma_async then read_async index port key (count_rdma w) else do
        block ← read_correct_node net config.ops_config config.server_start_index w.remote key
        ok (record (count_rdma w) { read_buffer = block })

  -- The response that follows without `RDMA_ASYNC`: the first `VALUE_SIZE` bytes of `read_buffer`.
  abbrev pub respond_from_buffer : ℕ → ℕ → Server cache indexes net → Server cache indexes net
  respond_from_buffer index port w =
      if config.ops_config.rdma_async
      then w
      else send_get_response index port response_ok
          (take config.ops_config.value_size w.read_buffer) w

  -- The part for `one_sided_rdma_enabled`, with the flag `found_in_rdma`.
  unfoldable pub read_remote :
      ℕ → ℕ → ℕ → Server cache indexes net → Outcome (Server cache indexes net × Bool)
  unfolding read_by_index read_by_placement
  read_remote index port key w =
      if not config.one_sided_rdma_enabled
      then ok (w, false)
      else if not config.ingest_block_index
      then panic
      else if config.use_cache_indexing
      then (let (w₁, found) = read_by_index index port key w in
          ok (respond_from_buffer index port w₁, found))
      else do w₁ ← read_by_placement index port key w; ok (respond_from_buffer index port w₁, true)

  abbrev pub count_local_disk : Server cache indexes net → Server cache indexes net
  count_local_disk w = record w {
    counters = record w.counters { local_disk_access = add64 w.counters.local_disk_access 1 };
  }

  -- The branch of a key that is not in the cache.
  unfoldable pub get_miss :
      ℕ → ℕ → ℕ → Server cache indexes net → Outcome (Server cache indexes net)
  unfolding count read_remote fetch_from_disk
  get_miss index port key w = do
    w₁ ← count cache_miss key (record w { block_cache = cache.increment_cache_miss w.block_cache })
    (w₂, found) ← read_remote index port key w₁
    if found
        then ok w₂
        else count local_disk_access key (count_local_disk w₂)
          >>= fetch_from_disk index port key true

  -- The branch of a key that is in the cache.
  unfoldable pub get_hit : ℕ → ℕ → ℕ → Server cache indexes net → Outcome (Server cache indexes net)
  unfolding count
  get_hit index port key w = do
    w₁ ← count cache_hits key w
    let (value, state) = cache.get_cached key w₁.block_cache
    ok (send_get_response index port response_ok value (record w₁ { block_cache = state }))

  -- What happens first: the counters are set back in the second `WARMUP_TIME_IN_SECONDS` after the
  -- start, and the request is counted.
  abbrev pub begin_get : Bool → Server cache indexes net → Server cache indexes net
  begin_get warm w =
      let w₁ =
        if warm
        then record w {
          block_cache = cache.reset_cache_info w.block_cache;
          counters = record w.counters {
            local_disk_access = 0;
            remote_disk_access = 0;
            total_disk_ops_executed = 0;
            total_ops_executed = 0;
            total_rdma_executed = 0;
          };
        }
        else w in
      record w₁ {
        counters = record w₁.counters {
          total_ops_executed = add64 w₁.counters.total_ops_executed 1;
        };
      }

  -- `isGetRequest`
  unfoldable pub handle_get :
      Bool → ℕ → ℕ → ℕ → Server cache indexes net → Outcome (Server cache indexes net)
  unfolding get_hit get_miss count
  handle_get warm index port key w = do
    let w₁ = begin_get warm w
    let exists = cache.exists_in_cache key w₁.block_cache
    let w₂ = record w₁ { block_cache = cache.update_frequency key w₁.block_cache }
    w₃ ← if exists then get_hit index port key w₂ else get_miss index port key w₂
    count total_accesses key w₃

  -- `isPutRequest`: the response goes to the base port of the client's machine.
  unfoldable pub handle_put :
      ℕ → ℕ → List ℕ → Server cache indexes net → Outcome (Server cache indexes net)
  handle_put index key value w = do
    state ← cache.put key value w.block_cache
    ok (
        send_put_response index (config.port index) response_ok
          (record w { block_cache = cache.update_frequency key state }))

  -- `isSingletonPutRequest`
  unfoldable pub handle_singleton_put :
      ℕ → List ℕ → Bool → ℕ → Server cache indexes net → Outcome (Server cache indexes net)
  handle_singleton_put key value singleton forward_count w = do
    state ← cache.put_singleton key value singleton forward_count w.block_cache
    ok (record w { block_cache = state })

  -- `isDeleteRequest`
  unfoldable pub handle_delete : ℕ → Server cache indexes net → Server cache indexes net
  handle_delete key w = record w { block_cache = cache.delete_key key w.block_cache }
