-- ===== src/Server/State.antt =====
-- The state of a server thread: `Server` of src/connection.h with its queues, the counters of
-- src/ldc.cpp, and the reads that are under way.
use twig_kv.Common.{ℕ, Bool, true, false, List, [], ◌∷◌, ◌++◌, add64}
use twig_kv.Index.Api.{IndexApi}
use twig_kv.Placement.{OneSided}
use twig_kv.Snapshot.{Snapshot}
use twig_kv.Server.Api.{BlockCacheApi}

-- `ResponseType` of src/packet.capnp
pub data ResponseType : Type 0 where
  response_ok response_invalid : ResponseType

abbrev pub is_ok : ResponseType → Bool
is_ok response_ok = true
is_ok response_invalid = false

-- A packet that has been handed to `send`, with the machine and the port it goes to.
pub data Packet : Type 0 where
  put_response : ℕ → ℕ → ResponseType → Packet
  get_response : ℕ → ℕ → ResponseType → List ℕ → Packet
  singleton_put_request : ℕ → ℕ → ℕ → List ℕ → Bool → ℕ → Packet
  delete_request : ℕ → ℕ → ℕ → Packet

pub record RdmaGetResponse : Type 0 where
  pub index : ℕ
  pub port : ℕ
  pub response_type : ResponseType
  pub value : List ℕ

pub record BlockCacheRequest : Type 0 where
  pub index : ℕ
  pub port : ℕ
  pub response_type : ResponseType
  pub key : ℕ
  pub value : List ℕ

pub record AppendSingletonPutRequest : Type 0 where
  pub index : ℕ
  pub port : ℕ
  pub response_type : ResponseType
  pub key : ℕ
  pub value : List ℕ
  pub singleton : Bool
  pub forward_count : ℕ

pub record AppendDeleteRequest : Type 0 where
  pub index : ℕ
  pub port : ℕ
  pub key : ℕ

-- What the callback of a `get_async` of the database does with the value besides the response: adds
-- it to the cache, adds it if the key is in the thread's range, or does not add it.
pub data Keep : Type 0 where
  always in_range never : Keep

-- A `get_async` of the database that has not called back.
pub record DiskRead : Type 0 where
  pub index : ℕ
  pub port : ℕ
  pub key : ℕ
  pub keep : Keep

-- A read of another server's storage by its cache index, in `pending_read_queue`: what the callback
-- of the read holds.
pub record IndexRead : Type 0 where
  pub index : ℕ
  pub port : ℕ
  pub expected_key : ℕ

-- An `AsyncRdmaOp` in the `pending_queue` of the node's circular buffer.
pub record AsyncRdmaOp : Type 0 where
  pub node : ℕ
  pub offset : ℕ
  pub index : ℕ
  pub port : ℕ

pub record Counters : Type 0 where
  pub total_ops_executed : ℕ
  pub local_disk_access : ℕ
  pub remote_disk_access : ℕ
  pub total_disk_ops_executed : ℕ
  pub total_rdma_executed : ℕ
  pub cache_freq_addition : ℕ
  pub remote_rdma_cache_hits : ℕ
  pub async_disk_requests : ℕ

pub record Server (cache : BlockCacheApi) (indexes : IndexApi) (net : OneSided) : Type 0 where
  pub block_cache : cache.State
  -- the cache indexes, and the memory of the servers that share theirs
  pub cache_indexes : indexes.Memory
  pub remote : net.Memory
  pub snapshot : Snapshot
  pub counters : Counters
  pub sent : List Packet
  pub rdma_get_response_queue : List RdmaGetResponse
  pub block_cache_request_queue : List BlockCacheRequest
  pub singleton_put_request_queue : List AppendSingletonPutRequest
  pub delete_request_queue : List AppendDeleteRequest
  pub disk_reads : List DiskRead
  pub index_reads : List IndexRead
  pub rdma_ops : List AsyncRdmaOp
  -- the length of the `free_queue` of a node's circular buffer
  pub free_ops : ℕ → ℕ
  pub read_buffer : List ℕ

module _ {cache : BlockCacheApi} {indexes : IndexApi} {net : OneSided} where
  abbrev pub send : Packet → Server cache indexes net → Server cache indexes net
  send p w = record w { sent = w.sent ++ p ∷ [] }

  -- `Server::put_response` and so on build the packet and send it.
  abbrev pub send_put_response :
      ℕ → ℕ → ResponseType → Server cache indexes net → Server cache indexes net
  send_put_response index port response_type w = send (put_response index port response_type) w

  abbrev pub send_get_response :
      ℕ → ℕ → ResponseType → List ℕ → Server cache indexes net → Server cache indexes net
  send_get_response index port response_type value w =
      send (get_response index port response_type value) w

  abbrev pub send_singleton_put_request :
      ℕ → ℕ → ℕ → List ℕ → Bool → ℕ → Server cache indexes net → Server cache indexes net
  send_singleton_put_request index port key value singleton forward_count w =
      send (singleton_put_request index port key value singleton forward_count) w

  abbrev pub send_delete_request : ℕ → ℕ → ℕ → Server cache indexes net → Server cache indexes net
  send_delete_request index port key w = send (delete_request index port key) w

  abbrev pub append_to_rdma_get_response_queue :
      ℕ → ℕ → ResponseType → List ℕ → Server cache indexes net → Server cache indexes net
  append_to_rdma_get_response_queue index port response_type value w = record w {
    rdma_get_response_queue =
        w.rdma_get_response_queue
        ++ record { index = index; port = port; response_type = response_type; value = value } ∷ [];
    counters = record w.counters {
      remote_rdma_cache_hits = add64 w.counters.remote_rdma_cache_hits 1;
    };
  }

  abbrev pub append_to_rdma_block_cache_request_queue :
      ℕ → ℕ → ResponseType → ℕ → List ℕ → Server cache indexes net → Server cache indexes net
  append_to_rdma_block_cache_request_queue index port response_type key value w = record w {
    block_cache_request_queue =
        w.block_cache_request_queue
        ++ record {
          index = index;
          port = port;
          response_type = response_type;
          key = key;
          value = value;
        }
          ∷ [];
    counters = record w.counters { async_disk_requests = add64 w.counters.async_disk_requests 1 };
  }

  abbrev pub append_singleton_put_request :
      ℕ → ℕ → ℕ → List ℕ → Bool → ℕ → Server cache indexes net → Server cache indexes net
  append_singleton_put_request index port key value singleton forward_count w = record w {
    singleton_put_request_queue =
        w.singleton_put_request_queue
        ++ record {
          index = index;
          port = port;
          response_type = response_ok;
          key = key;
          value = value;
          singleton = singleton;
          forward_count = forward_count;
        }
          ∷ [];
  }

  abbrev pub append_delete_request : ℕ → ℕ → ℕ → Server cache indexes net → Server cache indexes net
  append_delete_request index port key w = record w {
    delete_request_queue =
        w.delete_request_queue ++ record { index = index; port = port; key = key } ∷ [];
  }
