-- ===== src/Server/Answers/Flush.antt =====
-- What a round of `execute_pending_operations` does to the answers that are queued.
use twig_kv.Common.{
  ℕ, ◌+◌, ◌≡◌, refl, ◌∙◌, List, [], ◌++◌, ok, ap, ap₂, map, append-nil, sym, arith, if◌then◌else◌,
  Bool-cases, inl, inr, tally,
}
use twig_kv.Index.Api.{IndexApi}
use twig_kv.Placement.{OneSided}
use twig_kv.Server.Api.{BlockCacheApi, Settings}
use twig_kv.Server.State.{Server, is_ok, BlockCacheRequest}
use twig_kv.Server.Pending.{drain_disk, drain_deletes, execute_pending_operations}
use twig_kv.Server.Answers.{at, answered, awaited}
use twig_kv.Server.Answers.Loops.{
  AllOk, rdma_packet, disk_packet, singleton_packet, delete_packet, drain_rdma_lem, drain_disk_lem,
  drain_singletons_lem, drain_deletes_lem,
}

module _ {cache : BlockCacheApi} {indexes : IndexApi} {net : OneSided} (config : Settings) where
  -- The disk answers that a round sends.
  abbrev pub disk_due : Server cache indexes net → List BlockCacheRequest
  disk_due w = if config.block_db_async then w.block_cache_request_queue else []

  -- No entry that a round looks at reports a failure.
  pub record Fine (w : Server cache indexes net) : Type 0 where
    pub rdma : AllOk (λ r. is_ok r.response_type) w.rdma_get_response_queue
    pub disk : AllOk (λ r. is_ok r.response_type) (disk_due w)
    pub singletons : AllOk (λ r. is_ok r.response_type) w.singleton_put_request_queue

  -- The round sends everything that is queued, but for the answers from the disk if the settings do
  -- not say that the database is asynchronous: those it leaves in their queue.
  pub record Flushed (w w' : Server cache indexes net) : Type 0 where
    pub rdma : w'.rdma_get_response_queue ≡ []
    pub disk :
        w'.block_cache_request_queue
        ≡ (if config.block_db_async then [] else w.block_cache_request_queue)
    pub singletons : w'.singleton_put_request_queue ≡ []
    pub deletes : w'.delete_request_queue ≡ []
    pub reads : (i p : ℕ) → awaited i p w' ≡ awaited i p w
    pub packets :
        w'.sent
        ≡ (((w.sent ++ map rdma_packet w.rdma_get_response_queue) ++ map disk_packet (disk_due w))
            ++ map singleton_packet w.singleton_put_request_queue)
          ++ map delete_packet w.delete_request_queue
    pub sent :
        (i p : ℕ)
        → answered i p w'
          ≡ answered i p w
            + tally (λ r. at i p r.index r.port) w.rdma_get_response_queue
            + tally (λ r. at i p r.index r.port) (disk_due w)

  drain_disk_due :
      (w : Server cache indexes net)
      → AllOk (λ r. is_ok r.response_type) (disk_due w)
      → (w' : Server cache indexes net) × ((if config.block_db_async
            then drain_disk w.block_cache_request_queue w
            else ok w)
          ≡ ok w')
        × (w'.block_cache_request_queue
            ≡ (if config.block_db_async then [] else w.block_cache_request_queue))
        × (w'.rdma_get_response_queue ≡ w.rdma_get_response_queue)
        × (w'.singleton_put_request_queue ≡ w.singleton_put_request_queue)
        × ((i p : ℕ) → awaited i p w' ≡ awaited i p w)
        × ((i p : ℕ)
            → answered i p w' ≡ answered i p w + tally (λ r. at i p r.index r.port) (disk_due w))
        × (w'.delete_request_queue ≡ w.delete_request_queue)
        × (w'.sent ≡ w.sent ++ map disk_packet (disk_due w))
  drain_disk_due w f = elim (Bool-cases config.block_db_async) [
    | inl on ↦ rw on (drain_disk_lem w.block_cache_request_queue w refl (rw on at f))
    | inr off ↦
        rw off (
          w,
          refl,
          refl,
          refl,
          refl,
          λ i p. refl,
          λ i p. omega arith,
          refl,
          sym (append-nil w.sent),
        )
  ]

  -- If no entry that it looks at reports a failure, a round of `execute_pending_operations`
  -- returns. What it sends is exactly one packet for each entry, with all that the entry holds, in
  -- the order of the queues: the answers from RDMA, those from the disk, the singletons, the
  -- deletes; and the queues are empty. But if the settings do not say that the database is
  -- asynchronous, the answers from the disk are not sent and stay in their queue. It starts and ends
  -- no read.
  pub execute_pending_operations_lem :
      (w : Server cache indexes net)
      → Fine w
      → (w' : Server cache indexes net) × (execute_pending_operations config w ≡ ok w')
        × Flushed w w'
  unfolding execute_pending_operations
  execute_pending_operations_lem w f =
      let (w₁, run₁, rdma₁, disk₁, single₁, deletes₁, reads₁, sent₁, packets₁) =
        drain_rdma_lem w.rdma_get_response_queue w refl f.rdma in
      let same : disk_due w₁ ≡ disk_due w =
        ap (λ q. if config.block_db_async then q else []) disk₁ in
      let (w₂, run₂, disk₂, rdma₂, single₂, reads₂, sent₂, deletes₂, packets₂) =
        drain_disk_due w₁ (rw same f.disk) in
      let (w₃, run₃, single₃, a, deletes₃, packets₃) =
        drain_singletons_lem w₂.singleton_put_request_queue w₂ refl
          (rw (single₂, single₁) f.singletons) in
      let (b, deletes, single₄, packets₄) = drain_deletes_lem w₃.delete_request_queue w₃ refl in
      (
        drain_deletes w₃.delete_request_queue w₃,
        rw (run₁, run₂, run₃) refl,
        record {
          rdma = b.rdma ∙ a.rdma ∙ rdma₂ ∙ rdma₁;
          disk = b.disk ∙ a.disk ∙ disk₂ ∙ ap (λ q. if config.block_db_async then [] else q) disk₁;
          singletons = single₄ ∙ single₃;
          deletes = deletes;
          reads = λ i p. b.reads i p ∙ a.reads i p ∙ reads₂ i p ∙ reads₁ i p;
          packets =
              packets₄
              ∙ ap₂ (λ xs ds. xs ++ map delete_packet ds)
                  (packets₃
                    ∙ ap₂ (λ xs ss. xs ++ map singleton_packet ss)
                        (packets₂ ∙ ap₂ (λ xs ds. xs ++ map disk_packet ds) packets₁ same)
                        (single₂ ∙ single₁))
                  (deletes₃ ∙ deletes₂ ∙ deletes₁);
          sent = λ i p.
              b.sent i p
              ∙ a.sent i p
              ∙ sent₂ i p
              ∙ omega (arith, sent₁ i p, ap (tally (λ r. at i p r.index r.port)) same);
        },
      )
