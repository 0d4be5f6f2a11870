-- ===== src/Server/Answers.antt =====
-- Where the answer to a GET request is: sent, queued to be sent, or still to come from a read that
-- is under way. What the server does moves answers on and neither loses nor adds one.
pub mod Requests
pub mod Gets
pub mod Reads
pub mod Loops
pub mod Flush
pub mod Reach
use twig_kv.Common.{
  ℕ, ◌+◌, ◌-◌, ◌≡◌, refl, ◌∙◌, Bool, true, false, ◌&&◌, List, [], ◌∷◌, ◌++◌, Outcome, ok, ◌>>=◌,
  ends, returns, panics, breaks, arith, ◌==◌, if◌then◌else◌, tally, tally-append, Option, none,
  some, sym, ap,
}
use twig_kv.Index.Api.{IndexApi}
use twig_kv.Placement.{OneSided}
use twig_kv.Snapshot.{Counter, update}
use twig_kv.Server.Api.{BlockCacheApi, Settings}
use twig_kv.Server.State.{
  Packet, put_response, get_response, singleton_put_request, delete_request, Server, send,
  ResponseType, append_to_rdma_get_response_queue, append_to_rdma_block_cache_request_queue,
}
use twig_kv.Server.Handler.{count}

-- One if this is client thread `port` of machine `index`, and otherwise zero.
abbrev pub at : ℕ → ℕ → ℕ → ℕ → ℕ
at i p index port = if index == i && port == p then 1 else 0

-- The packets that answer a GET request of that client.
abbrev pub answer_to : ℕ → ℕ → Packet → ℕ
answer_to i p (put_response index port t) = 0
answer_to i p (get_response index port t value) = at i p index port
answer_to i p (singleton_put_request index port key value singleton forward_count) = 0
answer_to i p (delete_request index port key) = 0

module _ {cache : BlockCacheApi} {indexes : IndexApi} {net : OneSided} where
  abbrev pub answered : ℕ → ℕ → Server cache indexes net → ℕ
  answered i p w = tally (answer_to i p) w.sent

  -- Queued to be sent.
  abbrev pub queued : ℕ → ℕ → Server cache indexes net → ℕ
  queued i p w =
      tally (λ r. at i p r.index r.port) w.rdma_get_response_queue
      + tally (λ r. at i p r.index r.port) w.block_cache_request_queue

  -- To come from a read that is under way.
  abbrev pub awaited : ℕ → ℕ → Server cache indexes net → ℕ
  awaited i p w =
      tally (λ r. at i p r.index r.port) w.disk_reads
      + (tally (λ r. at i p r.index r.port) w.index_reads
          + tally (λ r. at i p r.index r.port) w.rdma_ops)

  abbrev pub answers : ℕ → ℕ → Server cache indexes net → ℕ
  answers i p w = answered i p w + (queued i p w + awaited i p w)

  pub answers-send :
      (i p index port : ℕ) (t : ResponseType) (value : List ℕ) (w : Server cache indexes net)
      → answers i p (send (get_response index port t value) w) ≡ answers i p w + at i p index port
  answers-send i p index port t value w =
      omega (arith, tally-append (answer_to i p) w.sent (get_response index port t value ∷ []))

  pub answers-rdma_queue :
      (i p index port : ℕ) (t : ResponseType) (value : List ℕ) (w : Server cache indexes net)
      → answers i p (append_to_rdma_get_response_queue index port t value w)
        ≡ answers i p w + at i p index port
  answers-rdma_queue i p index port t value w = omega (
    arith,
    tally-append (λ r. at i p r.index r.port) w.rdma_get_response_queue
        (record { index = index; port = port; response_type = t; value = value } ∷ []),
  )

  pub answers-disk_queue :
      (i p index port key : ℕ) (t : ResponseType) (value : List ℕ) (w : Server cache indexes net)
      → answers i p (append_to_rdma_block_cache_request_queue index port t key value w)
        ≡ answers i p w + at i p index port
  answers-disk_queue i p index port key t value w = omega (
    arith,
    tally-append (λ r. at i p r.index r.port) w.block_cache_request_queue
        (record { index = index; port = port; response_type = t; key = key; value = value } ∷ []),
  )

  pub answers-count :
      (config : Settings) (c : Counter) (key : ℕ) (w w' : Server cache indexes net)
      → count config c key w ≡ ok w'
      → (i p : ℕ) → answers i p w' ≡ answers i p w
  unfolding count
  answers-count config c key w w' e i p = elim (ends (update c key w.snapshot)) [
    | returns s q ↦ ground arith
    | panics q ↦ absurd cc
    | breaks q ↦ absurd cc
  ]
