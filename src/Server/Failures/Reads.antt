-- ===== src/Server/Failures/Reads.antt =====
-- The callbacks of the reads queue no failure, and a round of `execute_pending_operations` leaves none.
use twig_kv.Common.{
  ℕ, ◌-◌, ◌≡◌, refl, ◌∙◌, true, false, none, some, List, [], ◌∷◌, ok, ends, returns, panics, breaks,
  arith, ◌==◌, Bool-cases, inl, inr, take, add64, tally-append,
}
use twig_kv.Index.Api.{IndexApi}
use twig_kv.Index.Tables.{update_local_key}
use twig_kv.Placement.{OneSided}
use twig_kv.Snapshot as Snapshot
use twig_kv.Snapshot.{remote_disk_access}
use twig_kv.Server.Api.{
  BlockCacheApi, Settings, Policy, nchance, access_rate, access_rate_dynamic, other,
}
use twig_kv.Server.State.{
  Server, RdmaGetResponse, BlockCacheRequest, AppendSingletonPutRequest, DiskRead, IndexRead,
  AsyncRdmaOp, response_ok, append_to_rdma_get_response_queue,
}
use twig_kv.Server.Handler.{count, count_rdma}
use twig_kv.Server.Completions.{
  keeps, disk_done, keep_nchance, keep_access_rate, keep_value, index_done, rdma_done,
}
use twig_kv.Server.Answers.Flush.{Fine, Flushed}
use twig_kv.Server.Failures.{failure, failed, failed-moved, failed-count, AllOk-tally}
use twig_kv.Server.Failures.Requests.{failed-fetch_from_disk}

module _ {cache : BlockCacheApi} {indexes : IndexApi} {net : OneSided} (config : Settings) where
  failed-rdma_queue :
      (index port : ℕ) (value : List ℕ) (w : Server cache indexes net)
      → failed (append_to_rdma_get_response_queue index port response_ok value w) ≡ failed w
  failed-rdma_queue index port value w = omega (
    arith,
    tally-append (λ (r : RdmaGetResponse). failure r.response_type) w.rdma_get_response_queue
        (record { index = index; port = port; response_type = response_ok; value = value } ∷ []),
  )

  pub failed-disk_done :
      (r : DiskRead) (value : List ℕ) (w w' : Server cache indexes net)
      → disk_done config r value w ≡ ok w'
      → failed w' ≡ failed w
  unfolding disk_done
  failed-disk_done r value w w' e =
      let queue =
        tally-append (λ (r : BlockCacheRequest). failure r.response_type)
          w.block_cache_request_queue
          (record {
            index = r.index;
            port = r.port;
            response_type = response_ok;
            key = r.key;
            value = value;
          }
            ∷ []) in
      elim (Bool-cases (keeps config r)) [
        | inl k ↦ elim (ends (cache.cache_put r.key value w.block_cache)) [
          | returns state q ↦ failed-moved (rw (k, q) at e) (omega (arith, queue))
          | panics q ↦ absurd (ground arith)
          | breaks q ↦ absurd (ground arith)
        ]
        | inr k ↦ failed-moved (rw k at e) (omega (arith, queue))
      ]

  pub failed-rdma_done :
      (op : AsyncRdmaOp) (block : List ℕ) (w : Server cache indexes net)
      → failed (rdma_done config op block w) ≡ failed w
  unfolding rdma_done
  failed-rdma_done op block w =
      failed-rdma_queue op.index op.port (take config.ops_config.value_size block) w

  failed-keep_nchance :
      (key : ℕ) (value : List ℕ) (w w' : Server cache indexes net)
      → keep_nchance config key value w ≡ ok w'
      → failed w' ≡ failed w
  unfolding keep_nchance
  failed-keep_nchance key value w w' e = elim (ends (cache.put_nchance key value w.block_cache)) [
    | returns (none, state) q ↦ failed-moved (rw q at e) refl
    | returns (some evicted, state) q ↦ failed-moved (rw q at e) (
        omega (
          arith,
          tally-append (λ (r : AppendSingletonPutRequest). failure r.response_type)
              w.singleton_put_request_queue
              (record {
                index = _;
                port = _;
                response_type = response_ok;
                key = evicted.key;
                value = evicted.value;
                singleton = evicted.singleton;
                forward_count = evicted.forward_count;
              }
                ∷ []),
        ))
    | panics q ↦ absurd (ground arith)
    | breaks q ↦ absurd (ground arith)
  ]

  failed-keep_access_rate :
      (key : ℕ) (value : List ℕ) (w w' : Server cache indexes net)
      → keep_access_rate config key value w ≡ ok w'
      → failed w' ≡ failed w
  unfolding keep_access_rate
  failed-keep_access_rate key value w w' e =
      elim (ends (cache.put_access_rate_match key value w.block_cache)) [
        | returns (true, state) q ↦
            failed-count config Snapshot.access_rate key
              (record w {
                block_cache = state;
                counters = record w.counters {
                  cache_freq_addition = add64 w.counters.cache_freq_addition 1;
                };
              })
              w' (rw q at e)
        | returns (false, state) q ↦ failed-moved (rw q at e) refl
        | panics q ↦ absurd (ground arith)
        | breaks q ↦ absurd (ground arith)
      ]

  failed-keep_value :
      (policy : Policy) (key : ℕ) (value : List ℕ) (w w' : Server cache indexes net)
      → config.policy_type ≡ policy
      → keep_value config key value w ≡ ok w'
      → failed w' ≡ failed w
  unfolding keep_value count
  failed-keep_value nchance key value w w' h e = failed-keep_nchance key value w w' (rw h at e)
  failed-keep_value access_rate key value w w' h e =
      failed-keep_access_rate key value w w' (rw h at e)
  failed-keep_value access_rate_dynamic key value w w' h e =
      failed-keep_access_rate key value w w' (rw h at e)
  failed-keep_value other key value w w' h e = failed-moved (rw h at e) refl

  pub failed-index_done :
      (r : IndexRead) (key_index : ℕ) (bytes : List ℕ) (w w' : Server cache indexes net)
      → index_done config r key_index bytes w ≡ ok w'
      → failed w' ≡ failed w
  unfolding index_done
  failed-index_done r key_index bytes w w' e =
      let w₁ = count_rdma config w in
      let value = take config.ops_config.value_size bytes in
      let stale = record w₁ {
        counters = record w₁.counters {
          remote_disk_access = add64 w₁.counters.remote_disk_access 1;
        };
      } in
      elim (Bool-cases (key_index == r.expected_key)) [
        | inl same ↦ elim (ends (keep_value config key_index value w₁)) [
          | returns w₂ q ↦ failed-moved (rw (same, q) at e) (
              failed-rdma_queue r.index r.port value w₂
              ∙ failed-keep_value config.policy_type key_index value w₁ w₂ refl q)
          | panics q ↦ absurd (ground arith)
          | breaks q ↦ absurd (ground arith)
        ]
        | inr differs ↦ elim (ends (count config remote_disk_access r.expected_key stale)) [
          | returns w₂ q ↦
              failed-fetch_from_disk config r.index r.port r.expected_key false
                (record w₂ {
                  cache_indexes =
                      update_local_key indexes config.num_servers
                        (config.machine_index - config.server_start_index) r.expected_key key_index
                        w₂.cache_indexes;
                })
                w' (rw (differs, q) at e)
              ∙ failed-count config remote_disk_access r.expected_key stale w₂ q
          | panics q ↦ absurd (ground arith)
          | breaks q ↦ absurd (ground arith)
        ]
      ]

  -- Queues without a failure let the next round return.
  pub failed-Fine : (w : Server cache indexes net) → failed w ≡ 0 → Fine config w
  failed-Fine w h = record {
    rdma = AllOk-tally (λ r. r.response_type) w.rdma_get_response_queue (omega arith);
    disk = elim (Bool-cases config.block_db_async) [
      | inl on ↦
          rw on (AllOk-tally (λ r. r.response_type) w.block_cache_request_queue (omega arith))
      | inr off ↦ rw off tt
    ];
    singletons = AllOk-tally (λ r. r.response_type) w.singleton_put_request_queue (omega arith);
  }

  pub failed-Flushed :
      (w w' : Server cache indexes net) → failed w ≡ 0 → Flushed config w w' → failed w' ≡ 0
  failed-Flushed w w' h fl = elim (Bool-cases config.block_db_async) [
    | inl on ↦ rw (fl.rdma, fl.singletons, fl.disk, on) refl
    | inr off ↦ rw (fl.rdma, fl.singletons, fl.disk, off) (omega arith)
  ]
