-- ===== src/Server/Failures.antt =====
-- The entries of the queues of src/connection.cpp that report a failure, at which
-- `execute_pending_operations` panics. No handler and no callback queues one.
pub mod Requests
pub mod Reads
use twig_kv.Common.{
  ℕ, ◌+◌, ◌≡◌, refl, Bool, true, List, [], ◌∷◌, ok, ends, returns, panics, breaks, ok_injective, ap,
  sym, ◌∙◌, arith, if◌then◌else◌, tally, tally-append, Bool-cases, inl, inr,
}
use twig_kv.Index.Api.{IndexApi}
use twig_kv.Placement.{OneSided}
use twig_kv.Snapshot.{Counter, update}
use twig_kv.Server.Api.{BlockCacheApi, Settings}
use twig_kv.Server.State.{
  Server, ResponseType, response_ok, is_ok, append_to_rdma_get_response_queue,
  append_to_rdma_block_cache_request_queue, append_singleton_put_request,
}
use twig_kv.Server.Handler.{count}
use twig_kv.Server.Answers.Loops.{AllOk}

abbrev pub failure : ResponseType → ℕ
failure t = if is_ok t then 0 else 1

pub AllOk-tally {ℓ} :
    {A : Type ℓ} (t : A → ResponseType) (xs : List A)
    → tally (λ x. failure (t x)) xs ≡ 0
    → AllOk (λ x. is_ok (t x)) xs
AllOk-tally t [] h = tt
AllOk-tally t (x ∷ xs) h = (ground arith, AllOk-tally t xs (omega arith))

module _ {cache : BlockCacheApi} {indexes : IndexApi} {net : OneSided} where
  -- The entries that report a failure.
  abbrev pub failed : Server cache indexes net → ℕ
  failed w =
      tally (λ r. failure r.response_type) w.rdma_get_response_queue
      + (tally (λ r. failure r.response_type) w.block_cache_request_queue
          + tally (λ r. failure r.response_type) w.singleton_put_request_queue)

  -- What holds of the state that a call is known to return holds of the state that it returned.
  pub failed-moved :
      {w w' : Server cache indexes net} {n : ℕ} → ok w ≡ ok w' → failed w ≡ n → failed w' ≡ n
  failed-moved e h = ap failed (sym (ok_injective e)) ∙ h

  pub failed-count :
      (config : Settings) (c : Counter) (key : ℕ) (w w' : Server cache indexes net)
      → count config c key w ≡ ok w'
      → failed w' ≡ failed w
  unfolding count
  failed-count config c key w w' e = elim (ends (update c key w.snapshot)) [
    | returns s q ↦ failed-moved (rw q at e) refl
    | panics q ↦ absurd cc
    | breaks q ↦ absurd cc
  ]
