-- ===== src/Server/Answers/Gets.antt =====
-- The whole of a GET request.
use twig_kv.Common.{
  ℕ, ◌+◌, ◌≡◌, refl, ◌∙◌, Bool, true, false, not, ◌&&◌, ok, ◌>>=◌, ends, returns, panics, breaks,
  ap, arith, if◌then◌else◌, Bool-cases, inl, inr,
}
use twig_kv.Index.Api.{IndexApi}
use twig_kv.Placement.{OneSided}
use twig_kv.Snapshot.{local_disk_access, cache_miss, cache_hits, total_accesses}
use twig_kv.Server.Api.{BlockCacheApi, Settings}
use twig_kv.Server.State.{Server, response_ok}
use twig_kv.Server.Handler.{
  count, fetch_from_disk, read_remote, count_local_disk, get_miss, get_hit, begin_get, handle_get,
}
use twig_kv.Server.Answers.{at, answers, answers-send, answers-count}
use twig_kv.Server.Answers.Requests.{
  answers_from_buffer, remote_answers, moved, answers-read_remote, answers-fetch_from_disk,
}

module _ {cache : BlockCacheApi} {indexes : IndexApi} {net : OneSided} (config : Settings)
    (i p : ℕ) where
  answers-after_remote :
      (index port key : ℕ) (w w' : Server cache indexes net) (found : Bool)
      → (if found
          then ok w
          else count config local_disk_access key (count_local_disk config w)
            >>= fetch_from_disk config index port key true)
        ≡ ok w'
      → answers i p w' ≡ answers i p w + (if found then 0 else at i p index port)
  answers-after_remote index port key w w' true e = moved config i p e (omega arith)
  answers-after_remote index port key w w' false e =
      elim (ends (count config local_disk_access key (count_local_disk config w))) [
        | returns w₁ q ↦ ground (
          arith,
          answers-fetch_from_disk config i p index port key true w₁ w' (rw q at e),
          answers-count config local_disk_access key (count_local_disk config w) w₁ q i p,
        )
        | panics q ↦ absurd cc
        | breaks q ↦ absurd cc
      ]

  answers-get_miss :
      (index port key : ℕ) (w w' : Server cache indexes net)
      → get_miss config index port key w ≡ ok w'
      → answers i p w'
        ≡ answers i p w
          + (at i p index port + (if answers_from_buffer config then at i p index port else 0))
  unfolding get_miss
  answers-get_miss index port key w w' e =
      let missed = record w { block_cache = cache.increment_cache_miss w.block_cache } in
      elim (ends (count config cache_miss key missed)) [
        | returns w₁ q ↦ elim (ends (read_remote config index port key w₁)) [
          | returns (w₂, found) r ↦
              let rest = answers-after_remote index port key w₂ w' found (rw (q, r) at e) in
              let remote = answers-read_remote config i p index port key w₁ w₂ found r in
              let same = answers-count config cache_miss key missed w₁ q i p in
              combine found rest remote same
          | panics r ↦ absurd (ground arith)
          | breaks r ↦ absurd (ground arith)
        ]
        | panics q ↦ absurd cc
        | breaks q ↦ absurd cc
      ]
    where
      combine :
          (found : Bool) {a b c : ℕ}
          → answers i p w' ≡ a + (if found then 0 else at i p index port)
          → a ≡ b + remote_answers config i p index port found
          → b ≡ c
          → answers i p w'
            ≡ c
              + (at i p index port + (if answers_from_buffer config then at i p index port else 0))
      combine true h₁ h₂ h₃ = omega arith
      combine false h₁ h₂ h₃ = omega arith

  answers-get_hit :
      (index port key : ℕ) (w w' : Server cache indexes net)
      → get_hit config index port key w ≡ ok w'
      → answers i p w' ≡ answers i p w + at i p index port
  unfolding get_hit
  answers-get_hit index port key w w' e = elim (ends (count config cache_hits key w)) [
    | returns w₁ q ↦
        let (value, state) = cache.get_cached key w₁.block_cache in
        moved config i p (rw q at e) (
          answers-send i p index port response_ok value (record w₁ { block_cache = state })
          ∙ ap (λ t. t + at i p index port) (answers-count config cache_hits key w w₁ q i p))
    | panics q ↦ absurd cc
    | breaks q ↦ absurd cc
  ]

  -- If the handler of a GET request returns, then the client that sent it is owed one answer
  -- more than before and all others as many as before. It is owed two more if the key is not
  -- in the cache and the settings are one-sided RDMA with cache indexes and without
  -- `RDMA_ASYNC`.
  pub answers-handle_get :
      (warm : Bool) (index port key : ℕ) (w w' : Server cache indexes net)
      → handle_get config warm index port key w ≡ ok w'
      → answers i p w'
        ≡ answers i p w
          + (at i p index port
              + (if answers_from_buffer config
                    && not (cache.exists_in_cache key (begin_get config warm w).block_cache)
                  then at i p index port
                  else 0))
  unfolding handle_get
  answers-handle_get warm index port key w w' e =
      let w₁ = begin_get config warm w in
      let w₂ = record w₁ { block_cache = cache.update_frequency key w₁.block_cache } in
      let begun : answers i p w₂ ≡ answers i p w = begin warm in
      elim (Bool-cases (cache.exists_in_cache key w₁.block_cache)) [
        | inl hit ↦ elim (ends (get_hit config index port key w₂)) [
          | returns w₃ q ↦ ground (
            arith,
            answers-count config total_accesses key w₃ w' (rw (hit, q) at e) i p,
            answers-get_hit index port key w₂ w₃ q,
          )
          | panics q ↦ absurd (ground arith)
          | breaks q ↦ absurd (ground arith)
        ]
        | inr miss ↦ elim (ends (get_miss config index port key w₂)) [
          | returns w₃ q ↦ ground (
            arith,
            answers-count config total_accesses key w₃ w' (rw (miss, q) at e) i p,
            answers-get_miss index port key w₂ w₃ q,
          )
          | panics q ↦ absurd (ground arith)
          | breaks q ↦ absurd (ground arith)
        ]
      ]
    where
      begin :
          (b : Bool)
          → answers i p (record (begin_get config b w) {
            block_cache = cache.update_frequency key (begin_get config b w).block_cache;
          })
            ≡ answers i p w
      begin true = refl
      begin false = refl
