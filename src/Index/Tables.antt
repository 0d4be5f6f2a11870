-- ===== src/Index/Tables.antt =====
-- `CacheIndexes` of src/ldc.h over all the servers of a run. A key is given by its number, which
-- the code gets by `std::stoi`.
use twig_kv.Common.{
  ℕ, zero, suc, ◌+◌, ◌-◌, ◌*◌, Bool, List, [], ◌∷◌, ◌++◌, Option, none, some, Outcome, ok, panic,
  undefined, ◌>>=◌, ◌==◌, if◌then◌else◌, get_elem?,
}
use twig_kv.Index.Api.{IndexApi}
use twig_kv.Index.Connect.{connect_qps}

-- A posted `RDMAData::write` of one entry of the server's own table: both offsets are
-- `key_index * sizeof(RDMACacheIndex)`, and the size is one entry.
pub record Request : Type 0 where
  pub rdma_index : ℕ
  pub key_index : ℕ

-- `CACHE_INDEXES_PORT`
abbrev pub cache_indexes_port : ℕ
cache_indexes_port = 50300

-- The memory of all servers, and the `pending_write_queue` of each.
pub record Cluster (api : IndexApi) : Type 0 where
  pub memory : api.Memory
  pub pending : ℕ → List Request

-- `n` servers; the calls below are made on server `me`, the `machine_index`.
module _ (api : IndexApi) (n : ℕ) where
  open api use {
    CacheIndex, key_value_ptr_offset, key_value_ptr_invalid, invalid_cache_index, entry, store,
  }

  abbrev pub is_invalid : CacheIndex → Bool
  is_invalid e = key_value_ptr_offset e == key_value_ptr_invalid

  abbrev pub request : ℕ → ℕ → ℕ → Request
  request me i key = record { rdma_index = me * n + i; key_index = key }

  abbrev pub enqueue : ℕ → Request → Cluster api → Cluster api
  enqueue me r c = record c {
    pending = λ s. if s == me then c.pending s ++ r ∷ [] else c.pending s;
  }

  -- One round of the loop of `write_remote`. A write takes a request token until it is waited for; the
  -- tokens of these connections are not counted, and `get_request_token`, which stops in `panic`
  -- without one, is taken to find one.
  abbrev pub write_one : ℕ → ℕ → ℕ → Cluster api → Outcome (Cluster api)
  write_one me key i c =
      if me == i
      then ok c
      else if is_invalid (entry c.memory me me key)
      then panic
      else ok (enqueue me (request me i key) c)

  unfoldable pub write_loop : ℕ → ℕ → ℕ → ℕ → Cluster api → Outcome (Cluster api)
  write_loop me key zero i c = ok c
  write_loop me key (suc rounds) i c = write_one me key i c >>= write_loop me key rounds (i + 1)

  unfoldable pub write_remote : ℕ → ℕ → Cluster api → Outcome (Cluster api)
  unfolding write_loop
  write_remote me key c = write_loop me key n 0 c

  -- One round of the loop of `dealloc_remote`.
  abbrev pub dealloc_one : ℕ → ℕ → ℕ → Cluster api → Cluster api
  dealloc_one me key i c =
      if me == i
      then c
      else enqueue me (request me i key)
          (record c { memory = store c.memory me me key invalid_cache_index })

  unfoldable pub dealloc_loop : ℕ → ℕ → ℕ → ℕ → Cluster api → Cluster api
  dealloc_loop me key zero i c = c
  dealloc_loop me key (suc rounds) i c = dealloc_loop me key rounds (i + 1) (dealloc_one me key i c)

  unfoldable pub dealloc_remote : ℕ → ℕ → Cluster api → Cluster api
  unfolding dealloc_loop
  dealloc_remote me key c = dealloc_loop me key n 0 c

  -- The transfer of a posted write: the connection of that index, from the server's own table as it
  -- is by then. An index past `connect_qps` is an access out of range.
  unfoldable pub transfer : ℕ → Request → Cluster api → Outcome (Cluster api)
  transfer me r c = elim (get_elem? (connect_qps n cache_indexes_port) r.rdma_index) [
    | none ↦ undefined
    | some end ↦ ok (record c {
      memory =
          store c.memory end.server (end.port - cache_indexes_port) r.key_index
            (entry c.memory me me r.key_index);
    })
  ]

  -- `execute_pending`: each request is taken from the queue, and has gone through when
  -- `waitUntilCompleted` returns.
  unfoldable pub drain : ℕ → List Request → Cluster api → Outcome (Cluster api)
  drain me [] c = ok c
  drain me (r ∷ rs) c =
      transfer me r (record c { pending = λ s. if s == me then rs else c.pending s })
      >>= drain me rs

  unfoldable pub execute_pending : ℕ → Cluster api → Outcome (Cluster api)
  unfolding drain
  execute_pending me c = drain me (c.pending me) c

  -- One round of the loop of `update_local_key`.
  abbrev pub update_one : ℕ → ℕ → ℕ → ℕ → api.Memory → api.Memory
  update_one me expected_key key i mem =
      if me == i then mem else store mem me i key (entry mem me me expected_key)

  unfoldable pub update_loop : ℕ → ℕ → ℕ → ℕ → ℕ → api.Memory → api.Memory
  update_loop me expected_key key zero i mem = mem
  update_loop me expected_key key (suc rounds) i mem =
      update_loop me expected_key key rounds (i + 1) (update_one me expected_key key i mem)

  unfoldable pub update_local_key : ℕ → ℕ → ℕ → api.Memory → api.Memory
  unfolding update_loop
  update_local_key me expected_key key mem =
      if key == key_value_ptr_invalid then mem else update_loop me expected_key key n 0 mem

  -- The loop of `RDMAKeyValueCache::read_callback`: the first other server whose table has a valid
  -- entry for the key, with that entry. `none` is the result `false`.
  unfoldable pub find_remote : ℕ → ℕ → ℕ → ℕ → api.Memory → Option (ℕ × CacheIndex)
  find_remote me key zero i mem = none
  find_remote me key (suc rounds) i mem =
      let rest = find_remote me key rounds (i + 1) mem in
      let e = entry mem me i key in
      if i == me then rest else if is_invalid e then rest else some (i, e)

  unfoldable pub read_callback : ℕ → ℕ → api.Memory → Option (ℕ × CacheIndex)
  unfolding find_remote
  read_callback me key mem = find_remote me key n 0 mem
