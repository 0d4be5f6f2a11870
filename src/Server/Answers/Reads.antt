-- ===== src/Server/Answers/Reads.antt =====
-- A read that is done turns into a queued answer, or into a read from the disk.
use twig_kv.Common.{
  ℕ, ◌+◌, ◌-◌, ◌≡◌, refl, ◌∙◌, true, false, none, some, List, ok, ends, returns, panics, breaks, ap,
  arith, ◌==◌, Bool-cases, inl, inr, take, add64,
}
use twig_kv.Index.Api.{IndexApi}
use twig_kv.Index.Tables.{update_local_key}
use twig_kv.Placement.{OneSided}
use twig_kv.Snapshot as Snapshot
use twig_kv.Snapshot.{remote_disk_access}
use twig_kv.Server.Api.{
  BlockCacheApi, Settings, Policy, nchance, access_rate, access_rate_dynamic, other,
}
use twig_kv.Server.State.{Server, DiskRead, IndexRead, AsyncRdmaOp, response_ok}
use twig_kv.Server.Handler.{count, count_rdma}
use twig_kv.Server.Completions.{
  keeps, disk_done, keep_nchance, keep_access_rate, keep_value, index_done, rdma_done,
}
use twig_kv.Server.Answers.{at, answers, answers-count, answers-rdma_queue, answers-disk_queue}
use twig_kv.Server.Answers.Requests.{moved, answers-fetch_from_disk}

module _ {cache : BlockCacheApi} {indexes : IndexApi} {net : OneSided} (config : Settings)
    (i p : ℕ) where
  pub answers-disk_done :
      (r : DiskRead) (value : List ℕ) (w w' : Server cache indexes net)
      → disk_done config r value w ≡ ok w'
      → answers i p w' ≡ answers i p w + at i p r.index r.port
  unfolding disk_done
  answers-disk_done r value w w' e = elim (Bool-cases (keeps config r)) [
    | inl k ↦ elim (ends (cache.cache_put r.key value w.block_cache)) [
      | returns state q ↦ moved config i p (rw (k, q) at e) (
          answers-disk_queue i p r.index r.port r.key response_ok value
            (record w { block_cache = state }))
      | panics q ↦ absurd (ground arith)
      | breaks q ↦ absurd (ground arith)
    ]
    | inr k ↦
        moved config i p (rw k at e)
          (answers-disk_queue i p r.index r.port r.key response_ok value w)
  ]

  pub answers-rdma_done :
      (op : AsyncRdmaOp) (block : List ℕ) (w : Server cache indexes net)
      → answers i p (rdma_done config op block w) ≡ answers i p w + at i p op.index op.port
  unfolding rdma_done
  answers-rdma_done op block w =
      answers-rdma_queue i p op.index op.port response_ok (take config.ops_config.value_size block)
        w

  answers-keep_nchance :
      (key : ℕ) (value : List ℕ) (w w' : Server cache indexes net)
      → keep_nchance config key value w ≡ ok w'
      → answers i p w' ≡ answers i p w
  unfolding keep_nchance
  answers-keep_nchance key value w w' e = elim (ends (cache.put_nchance key value w.block_cache)) [
    | returns (none, state) q ↦ moved config i p (rw q at e) refl
    | returns (some evicted, state) q ↦ moved config i p (rw q at e) refl
    | panics q ↦ absurd (ground arith)
    | breaks q ↦ absurd (ground arith)
  ]

  answers-keep_access_rate :
      (key : ℕ) (value : List ℕ) (w w' : Server cache indexes net)
      → keep_access_rate config key value w ≡ ok w'
      → answers i p w' ≡ answers i p w
  unfolding keep_access_rate
  answers-keep_access_rate key value w w' e =
      elim (ends (cache.put_access_rate_match key value w.block_cache)) [
        | returns (true, state) q ↦
            let counted = record w {
              block_cache = state;
              counters = record w.counters {
                cache_freq_addition = add64 w.counters.cache_freq_addition 1;
              };
            } in
            answers-count config Snapshot.access_rate key counted w' (rw q at e) i p
        | returns (false, state) q ↦ moved config i p (rw q at e) refl
        | panics q ↦ absurd (ground arith)
        | breaks q ↦ absurd (ground arith)
      ]

  answers-keep_value :
      (policy : Policy) (key : ℕ) (value : List ℕ) (w w' : Server cache indexes net)
      → config.policy_type ≡ policy
      → keep_value config key value w ≡ ok w'
      → answers i p w' ≡ answers i p w
  unfolding keep_value count
  answers-keep_value nchance key value w w' h e = answers-keep_nchance key value w w' (rw h at e)
  answers-keep_value access_rate key value w w' h e =
      answers-keep_access_rate key value w w' (rw h at e)
  answers-keep_value access_rate_dynamic key value w w' h e =
      answers-keep_access_rate key value w w' (rw h at e)
  answers-keep_value other key value w w' h e = moved config i p (rw h at e) refl

  pub answers-index_done :
      (r : IndexRead) (key_index : ℕ) (bytes : List ℕ) (w w' : Server cache indexes net)
      → index_done config r key_index bytes w ≡ ok w'
      → answers i p w' ≡ answers i p w + at i p r.index r.port
  unfolding index_done
  answers-index_done r key_index bytes w w' e =
      let w₁ = count_rdma config w in
      let value = take config.ops_config.value_size bytes in
      let stale = record w₁ {
        counters = record w₁.counters {
          remote_disk_access = add64 w₁.counters.remote_disk_access 1;
        };
      } in
      elim (Bool-cases (key_index == r.expected_key)) [
        | inl same ↦ elim (ends (keep_value config key_index value w₁)) [
          | returns w₂ q ↦ moved config i p (rw (same, q) at e) (
              answers-rdma_queue i p r.index r.port response_ok value w₂
              ∙ ap (λ t. t + at i p r.index r.port)
                  (answers-keep_value config.policy_type key_index value w₁ w₂ refl q))
          | panics q ↦ absurd (ground arith)
          | breaks q ↦ absurd (ground arith)
        ]
        | inr differs ↦ elim (ends (count config remote_disk_access r.expected_key stale)) [
          | returns w₂ q ↦
              answers-fetch_from_disk config i p r.index r.port r.expected_key false
                (record w₂ {
                  cache_indexes =
                      update_local_key indexes config.num_servers
                        (config.machine_index - config.server_start_index) r.expected_key key_index
                        w₂.cache_indexes;
                })
                w' (rw (differs, q) at e)
              ∙ ap (λ t. t + at i p r.index r.port)
                  (answers-count config remote_disk_access r.expected_key stale w₂ q i p)
          | panics q ↦ absurd (ground arith)
          | breaks q ↦ absurd (ground arith)
        ]
      ]
