-- ===== src/Server/Answers/Loops.antt =====
-- What each loop of `execute_pending_operations` does to the answers that are queued.
use twig_kv.Common.{
  ℕ, ◌+◌, ◌≡◌, refl, sym, ◌∙◌, Bool, true, List, [], ◌∷◌, ◌++◌, ok, arith, map, append_assoc,
  append-nil, tally, tally-append,
}
use twig_kv.Index.Api.{IndexApi}
use twig_kv.Placement.{OneSided}
use twig_kv.Server.Api.{BlockCacheApi}
use twig_kv.Server.State.{
  RdmaGetResponse, BlockCacheRequest, AppendSingletonPutRequest, AppendDeleteRequest, Server, is_ok,
  Packet, send, get_response, singleton_put_request, delete_request,
}
use twig_kv.Server.Pending.{drain_rdma, drain_disk, drain_singletons, drain_deletes}
use twig_kv.Server.Answers.{at, answer_to, answered, awaited}

-- No entry of a queue reports a failure.
abbrev pub AllOk {ℓ} : {A : Type ℓ} → (A → Bool) → List A → Type 0
AllOk f [] = Unit {0}
AllOk f (x ∷ xs) = (f x ≡ true) × AllOk f xs

-- What is sent for an entry of each queue.
abbrev pub rdma_packet : RdmaGetResponse → Packet
rdma_packet r = get_response r.index r.port r.response_type r.value

abbrev pub disk_packet : BlockCacheRequest → Packet
disk_packet r = get_response r.index r.port r.response_type r.value

abbrev pub singleton_packet : AppendSingletonPutRequest → Packet
singleton_packet r = singleton_put_request r.index r.port r.key r.value r.singleton r.forward_count

abbrev pub delete_packet : AppendDeleteRequest → Packet
delete_packet r = delete_request r.index r.port r.key

sent_next : (ps qs : List Packet) (p : Packet) → (ps ++ p ∷ []) ++ qs ≡ ps ++ p ∷ qs
sent_next ps qs p = append_assoc ps (p ∷ []) qs

module _ {cache : BlockCacheApi} {indexes : IndexApi} {net : OneSided} where
  pub drain_rdma_lem :
      (rs : List RdmaGetResponse) (w : Server cache indexes net)
      → w.rdma_get_response_queue ≡ rs
      → AllOk (λ r. is_ok r.response_type) rs
      → (w' : Server cache indexes net) × (drain_rdma rs w ≡ ok w')
        × (w'.rdma_get_response_queue ≡ [])
        × (w'.block_cache_request_queue ≡ w.block_cache_request_queue)
        × (w'.singleton_put_request_queue ≡ w.singleton_put_request_queue)
        × (w'.delete_request_queue ≡ w.delete_request_queue)
        × ((i p : ℕ) → awaited i p w' ≡ awaited i p w)
        × ((i p : ℕ) → answered i p w' ≡ answered i p w + tally (λ r. at i p r.index r.port) rs)
        × (w'.sent ≡ w.sent ++ map rdma_packet rs)
  unfolding drain_rdma
  drain_rdma_lem [] w q h =
      (w, refl, q, refl, refl, refl, λ i p. refl, λ i p. omega arith, sym (append-nil w.sent))
  drain_rdma_lem (r ∷ rs) w q h =
      let packet = get_response r.index r.port r.response_type r.value in
      let (w', run, none_left, disk, single, deletes, reads, sent, packets) =
        drain_rdma_lem rs (send packet (record w { rdma_get_response_queue = rs })) refl h.1 in
      (
        w',
        rw h.0 run,
        none_left,
        disk,
        single,
        deletes,
        reads,
        λ i p. omega (arith, sent i p, tally-append (answer_to i p) w.sent (packet ∷ [])),
        packets ∙ sent_next w.sent (map rdma_packet rs) packet,
      )

  pub drain_disk_lem :
      (rs : List BlockCacheRequest) (w : Server cache indexes net)
      → w.block_cache_request_queue ≡ rs
      → AllOk (λ r. is_ok r.response_type) rs
      → (w' : Server cache indexes net) × (drain_disk rs w ≡ ok w')
        × (w'.block_cache_request_queue ≡ [])
        × (w'.rdma_get_response_queue ≡ w.rdma_get_response_queue)
        × (w'.singleton_put_request_queue ≡ w.singleton_put_request_queue)
        × ((i p : ℕ) → awaited i p w' ≡ awaited i p w)
        × ((i p : ℕ) → answered i p w' ≡ answered i p w + tally (λ r. at i p r.index r.port) rs)
        × (w'.delete_request_queue ≡ w.delete_request_queue)
        × (w'.sent ≡ w.sent ++ map disk_packet rs)
  unfolding drain_disk
  drain_disk_lem [] w q h =
      (w, refl, q, refl, refl, λ i p. refl, λ i p. omega arith, refl, sym (append-nil w.sent))
  drain_disk_lem (r ∷ rs) w q h =
      let packet = get_response r.index r.port r.response_type r.value in
      let (w', run, none_left, rdma, single, reads, sent, deletes, packets) =
        drain_disk_lem rs (send packet (record w { block_cache_request_queue = rs })) refl h.1 in
      (
        w',
        rw h.0 run,
        none_left,
        rdma,
        single,
        reads,
        λ i p. omega (arith, sent i p, tally-append (answer_to i p) w.sent (packet ∷ [])),
        deletes,
        packets ∙ sent_next w.sent (map disk_packet rs) packet,
      )

  -- The singletons and the deletes are no answers, and their loops leave the answers alone.
  pub record Aside (w w' : Server cache indexes net) : Type 0 where
    pub rdma : w'.rdma_get_response_queue ≡ w.rdma_get_response_queue
    pub disk : w'.block_cache_request_queue ≡ w.block_cache_request_queue
    pub reads : (i p : ℕ) → awaited i p w' ≡ awaited i p w
    pub sent : (i p : ℕ) → answered i p w' ≡ answered i p w

  pub drain_singletons_lem :
      (rs : List AppendSingletonPutRequest) (w : Server cache indexes net)
      → w.singleton_put_request_queue ≡ rs
      → AllOk (λ r. is_ok r.response_type) rs
      → (w' : Server cache indexes net) × (drain_singletons rs w ≡ ok w')
        × (w'.singleton_put_request_queue ≡ [])
        × Aside w w'
        × (w'.delete_request_queue ≡ w.delete_request_queue)
        × (w'.sent ≡ w.sent ++ map singleton_packet rs)
  unfolding drain_singletons
  drain_singletons_lem [] w q h = (
    w,
    refl,
    q,
    record { rdma = refl; disk = refl; reads = λ i p. refl; sent = λ i p. refl },
    refl,
    sym (append-nil w.sent),
  )
  drain_singletons_lem (r ∷ rs) w q h =
      let packet = singleton_put_request r.index r.port r.key r.value r.singleton r.forward_count in
      let (w', run, none_left, a, deletes, packets) =
        drain_singletons_lem rs (send packet (record w { singleton_put_request_queue = rs })) refl
          h.1 in
      (
        w',
        rw h.0 run,
        none_left,
        record {
          rdma = a.rdma;
          disk = a.disk;
          reads = a.reads;
          sent =
              λ i p. omega (arith, a.sent i p, tally-append (answer_to i p) w.sent (packet ∷ []));
        },
        deletes,
        packets ∙ sent_next w.sent (map singleton_packet rs) packet,
      )

  pub drain_deletes_lem :
      (rs : List AppendDeleteRequest) (w : Server cache indexes net)
      → w.delete_request_queue ≡ rs
      → (Aside w (drain_deletes rs w))
        × ((drain_deletes rs w).delete_request_queue ≡ [])
        × ((drain_deletes rs w).singleton_put_request_queue ≡ w.singleton_put_request_queue)
        × ((drain_deletes rs w).sent ≡ w.sent ++ map delete_packet rs)
  unfolding drain_deletes
  drain_deletes_lem [] w q = (
    record { rdma = refl; disk = refl; reads = λ i p. refl; sent = λ i p. refl },
    q,
    refl,
    sym (append-nil w.sent),
  )
  drain_deletes_lem (r ∷ rs) w q =
      let packet = delete_request r.index r.port r.key in
      let (a, none_left, single, packets) =
        drain_deletes_lem rs (send packet (record w { delete_request_queue = rs })) refl in
      (
        record {
          rdma = a.rdma;
          disk = a.disk;
          reads = a.reads;
          sent =
              λ i p. omega (arith, a.sent i p, tally-append (answer_to i p) w.sent (packet ∷ []));
        },
        none_left,
        single,
        packets ∙ sent_next w.sent (map delete_packet rs) packet,
      )
