-- ===== src/Server/Failures/Requests.antt =====
-- The handler of a GET request queues no failure.
use twig_kv.Common.{
  ℕ, ◌-◌, ◌≡◌, refl, ◌∙◌, Bool, true, false, ◌&&◌, ok, Outcome, ◌>>=◌, ends, returns, panics,
  breaks, ok_injective, ap, sym, arith, ◌==◌, if◌then◌else◌, Bool-cases, Option-cases, inl, inr,
}
use twig_kv.Index.Api.{IndexApi}
use twig_kv.Index.Tables.{read_callback}
use twig_kv.Placement.{OneSided, calculate_node_and_offset, read_correct_node}
use twig_kv.Snapshot.{disk_access, local_disk_access, cache_miss, cache_hits, total_accesses}
use twig_kv.Server.Api.{BlockCacheApi, Settings}
use twig_kv.Server.State.{Server}
use twig_kv.Server.Handler.{
  count, fetch_now, fetch_from_disk, read_by_index, read_async, read_by_placement, read_remote,
  respond_from_buffer, count_local_disk, get_miss, get_hit, begin_get, handle_get,
}
use twig_kv.Server.Failures.{failed, failed-moved, failed-count}

module _ {cache : BlockCacheApi} {indexes : IndexApi} {net : OneSided} (config : Settings) where
  failed-fetch_now :
      (index port key : ℕ) (add_to_cache : Bool) (w w' : Server cache indexes net)
      → fetch_now config index port key add_to_cache w ≡ ok w'
      → failed w' ≡ failed w
  unfolding fetch_now
  failed-fetch_now index port key add_to_cache w w' e =
      elim (Bool-cases (config.ops_config.operations_pollute_cache && add_to_cache)) [
        | inl a ↦ elim (ends (cache.get key w.block_cache)) [
          | returns r q ↦ failed-moved (rw (a, q) at e) refl
          | panics q ↦ absurd (ground arith)
          | breaks q ↦ absurd (ground arith)
        ]
        | inr b ↦ elim (Option-cases (cache.db_get key w.block_cache)) [
          | inl n ↦ absurd (ground arith)
          | inr (value, s) ↦ failed-moved (rw (b, s) at e) refl
        ]
      ]

  pub failed-fetch_from_disk :
      (index port key : ℕ) (add_to_cache : Bool) (w w' : Server cache indexes net)
      → fetch_from_disk config index port key add_to_cache w ≡ ok w'
      → failed w' ≡ failed w
  unfolding fetch_from_disk
  failed-fetch_from_disk index port key add_to_cache w w' e =
      elim (ends (count config disk_access key w)) [
        | returns w₁ q ↦
            let same = failed-count config disk_access key w w₁ q in
            elim (Bool-cases config.ops_config.disk_async) [
              | inl a ↦ failed-moved (rw (q, a) at e) same
              | inr b ↦ failed-fetch_now index port key add_to_cache w₁ w' (rw (q, b) at e) ∙ same
            ]
        | panics q ↦ absurd cc
        | breaks q ↦ absurd cc
      ]

  failed-read_by_index :
      (index port key : ℕ) (w : Server cache indexes net)
      → failed (read_by_index config index port key w).0 ≡ failed w
  unfolding read_by_index
  failed-read_by_index index port key w =
      elim (Option-cases (
        read_callback indexes config.num_servers (config.machine_index - config.server_start_index)
          key w.cache_indexes)) [
            | inl n ↦ rw (n, read_by_index) refl
            | inr (s, e) ↦ rw (e, read_by_index) refl
          ]

  failed-read_by_placement :
      (index port key : ℕ) (w w' : Server cache indexes net)
      → read_by_placement config index port key w ≡ ok w'
      → failed w' ≡ failed w
  unfolding read_by_placement read_async calculate_node_and_offset read_correct_node
  failed-read_by_placement index port key w w' e = elim (Bool-cases config.ops_config.rdma_async) [
    | inl a ↦ elim (ends (calculate_node_and_offset config.ops_config key)) [
      | returns q h ↦ elim (Bool-cases (w.free_ops q.node_index == 0)) [
        | inl z ↦ absurd (ground arith)
        | inr f ↦ failed-moved (rw (a, h, f) at e) refl
      ]
      | panics h ↦ absurd (ground arith)
      | breaks h ↦ absurd (ground arith)
    ]
    | inr s ↦
        elim (ends
          (read_correct_node net config.ops_config config.server_start_index w.remote key)) [
            | returns block q ↦ failed-moved (rw (s, q) at e) refl
            | panics q ↦ absurd (ground arith)
            | breaks q ↦ absurd (ground arith)
          ]
  ]

  failed-respond_from_buffer :
      (index port : ℕ) (w : Server cache indexes net)
      → failed (respond_from_buffer config index port w) ≡ failed w
  failed-respond_from_buffer index port w = elim (Bool-cases config.ops_config.rdma_async) [
    | inl a ↦ rw a refl
    | inr b ↦ rw b refl
  ]

  -- The same for a call that returns a flag as well.
  failed-moved_with :
      {w w' : Server cache indexes net} {f f' : Bool} {n : ℕ}
      → ◌≡◌ {A = Outcome (Server cache indexes net × Bool)} (ok (w, f)) (ok (w', f'))
      → failed w ≡ n
      → failed w' ≡ n
  failed-moved_with e h = ap (λ v. failed v.0) (sym (ok_injective e)) ∙ h

  failed-read_remote :
      (index port key : ℕ) (w w' : Server cache indexes net) (found : Bool)
      → read_remote config index port key w ≡ ok (w', found)
      → failed w' ≡ failed w
  unfolding read_remote
  failed-read_remote index port key w w' found e = elim (Bool-cases config.one_sided_rdma_enabled) [
    | inr off ↦ failed-moved_with (rw off at e) refl
    | inl on ↦ elim (Bool-cases config.ingest_block_index) [
      | inr without ↦ absurd (ground arith)
      | inl ingest ↦ elim (Bool-cases config.use_cache_indexing) [
        | inl by_index ↦ failed-moved_with (rw (on, ingest, by_index) at e) (
            failed-respond_from_buffer index port (read_by_index config index port key w).0
            ∙ failed-read_by_index index port key w)
        | inr by_place ↦ elim (ends (read_by_placement config index port key w)) [
          | returns w₁ q ↦ failed-moved_with (rw (on, ingest, by_place, q) at e) (
              failed-respond_from_buffer index port w₁
              ∙ failed-read_by_placement index port key w w₁ q)
          | panics q ↦ absurd (ground arith)
          | breaks q ↦ absurd (ground arith)
        ]
      ]
    ]
  ]

  failed-after_remote :
      (index port key : ℕ) (w w' : Server cache indexes net) (found : Bool)
      → (if found
          then ok w
          else count config local_disk_access key (count_local_disk config w)
            >>= fetch_from_disk config index port key true)
        ≡ ok w'
      → failed w' ≡ failed w
  failed-after_remote index port key w w' true e = failed-moved e refl
  failed-after_remote index port key w w' false e =
      elim (ends (count config local_disk_access key (count_local_disk config w))) [
        | returns w₁ q ↦
            failed-fetch_from_disk index port key true w₁ w' (rw q at e)
            ∙ failed-count config local_disk_access key (count_local_disk config w) w₁ q
        | panics q ↦ absurd cc
        | breaks q ↦ absurd cc
      ]

  failed-get_miss :
      (index port key : ℕ) (w w' : Server cache indexes net)
      → get_miss config index port key w ≡ ok w'
      → failed w' ≡ failed w
  unfolding get_miss
  failed-get_miss index port key w w' e =
      let missed = record w { block_cache = cache.increment_cache_miss w.block_cache } in
      elim (ends (count config cache_miss key missed)) [
        | returns w₁ q ↦ elim (ends (read_remote config index port key w₁)) [
          | returns (w₂, found) r ↦
              failed-after_remote index port key w₂ w' found (rw (q, r) at e)
              ∙ failed-read_remote index port key w₁ w₂ found r
              ∙ failed-count config cache_miss key missed w₁ q
          | panics r ↦ absurd (ground arith)
          | breaks r ↦ absurd (ground arith)
        ]
        | panics q ↦ absurd cc
        | breaks q ↦ absurd cc
      ]

  failed-get_hit :
      (index port key : ℕ) (w w' : Server cache indexes net)
      → get_hit config index port key w ≡ ok w'
      → failed w' ≡ failed w
  unfolding get_hit
  failed-get_hit index port key w w' e = elim (ends (count config cache_hits key w)) [
    | returns w₁ q ↦ failed-moved (rw q at e) (failed-count config cache_hits key w w₁ q)
    | panics q ↦ absurd cc
    | breaks q ↦ absurd cc
  ]

  begin_get_same :
      (warm : Bool) (w : Server cache indexes net) → failed (begin_get config warm w) ≡ failed w
  begin_get_same true w = refl
  begin_get_same false w = refl

  pub failed-handle_get :
      (warm : Bool) (index port key : ℕ) (w w' : Server cache indexes net)
      → handle_get config warm index port key w ≡ ok w'
      → failed w' ≡ failed w
  unfolding handle_get
  failed-handle_get warm index port key w w' e =
      let w₁ = begin_get config warm w in
      let w₂ = record w₁ { block_cache = cache.update_frequency key w₁.block_cache } in
      elim (Bool-cases (cache.exists_in_cache key w₁.block_cache)) [
        | inl hit ↦ elim (ends (get_hit config index port key w₂)) [
          | returns w₃ q ↦
              failed-count config total_accesses key w₃ w' (rw (hit, q) at e)
              ∙ failed-get_hit index port key w₂ w₃ q
              ∙ begin_get_same warm w
          | panics q ↦ absurd (ground arith)
          | breaks q ↦ absurd (ground arith)
        ]
        | inr miss ↦ elim (ends (get_miss config index port key w₂)) [
          | returns w₃ q ↦
              failed-count config total_accesses key w₃ w' (rw (miss, q) at e)
              ∙ failed-get_miss index port key w₂ w₃ q
              ∙ begin_get_same warm w
          | panics q ↦ absurd (ground arith)
          | breaks q ↦ absurd (ground arith)
        ]
      ]
