-- ===== src/Server/Answers/Requests.antt =====
-- How many answers a GET request gets.
use twig_kv.Common.{
  ℕ, ◌+◌, ◌-◌, ◌≡◌, refl, ◌∙◌, Bool, not, ◌&&◌, [], ◌∷◌, Outcome, ok, ends, returns, panics, breaks,
  ok_injective, ap, sym, subst, arith, ◌==◌, if◌then◌else◌, take, tally-append, Bool-cases,
  Option-cases, inl, inr,
}
use twig_kv.Index.Api.{IndexApi}
use twig_kv.Index.Tables.{read_callback}
use twig_kv.Placement.{OneSided, calculate_node_and_offset, read_correct_node}
use twig_kv.Snapshot.{disk_access}
use twig_kv.Server.Api.{BlockCacheApi, Settings}
use twig_kv.Server.State.{Server, response_ok}
use twig_kv.Server.Handler.{
  count, fetch_async, fetch_now, fetch_from_disk, count_disk_op, read_by_index, read_async,
  count_rdma, read_by_placement, respond_from_buffer, read_remote,
}
use twig_kv.Server.Answers.{at, answers, answers-send, answers-count}

-- Whether a request for a key that is not in the cache is answered from the buffer, whatever the
-- read by the index finds.
abbrev pub answers_from_buffer : Settings → Bool
answers_from_buffer config =
    config.one_sided_rdma_enabled && (config.use_cache_indexing && not config.ops_config.rdma_async)

-- The answers that `read_remote` accounts for.
abbrev pub remote_answers : Settings → ℕ → ℕ → ℕ → ℕ → Bool → ℕ
remote_answers config i p index port found =
    (if found then at i p index port else 0)
    + (if answers_from_buffer config then at i p index port else 0)

module _ {cache : BlockCacheApi} {indexes : IndexApi} {net : OneSided} (config : Settings)
    (i p : ℕ) where
  -- What holds of the state that a call is known to return holds of the state that it returned.
  pub moved :
      {w w' : Server cache indexes net} {n : ℕ}
      → ok w ≡ ok w'
      → answers i p w ≡ n
      → answers i p w' ≡ n
  moved e h = ap (answers i p) (sym (ok_injective e)) ∙ h

  answers-fetch_async :
      (index port key : ℕ) (add_to_cache : Bool) (w : Server cache indexes net)
      → answers i p (fetch_async config index port key add_to_cache w)
        ≡ answers i p w + at i p index port
  answers-fetch_async index port key add_to_cache w = omega (
    arith,
    tally-append (λ r. at i p r.index r.port) w.disk_reads
        (record { index = index; port = port; key = key; keep = _ } ∷ []),
  )

  answers-fetch_now :
      (index port key : ℕ) (add_to_cache : Bool) (w w' : Server cache indexes net)
      → fetch_now config index port key add_to_cache w ≡ ok w'
      → answers i p w' ≡ answers i p w + at i p index port
  unfolding fetch_now
  answers-fetch_now index port key add_to_cache w w' e =
      elim (Bool-cases (config.ops_config.operations_pollute_cache && add_to_cache)) [
        | inl a ↦ elim (ends (cache.get key w.block_cache)) [
          | returns (value, state) q ↦ moved (rw (a, q) at e) (
              answers-send i p index port response_ok value
                (count_disk_op config (record w { block_cache = state })))
          | panics q ↦ absurd (ground arith)
          | breaks q ↦ absurd (ground arith)
        ]
        | inr b ↦ elim (Option-cases (cache.db_get key w.block_cache)) [
          | inl n ↦ absurd (ground arith)
          | inr (value, s) ↦
              moved (rw (b, s) at e)
                (answers-send i p index port response_ok value (count_disk_op config w))
        ]
      ]

  pub answers-fetch_from_disk :
      (index port key : ℕ) (add_to_cache : Bool) (w w' : Server cache indexes net)
      → fetch_from_disk config index port key add_to_cache w ≡ ok w'
      → answers i p w' ≡ answers i p w + at i p index port
  unfolding fetch_from_disk
  answers-fetch_from_disk index port key add_to_cache w w' e =
      elim (ends (count config disk_access key w)) [
        | returns w₁ q ↦ elim (Bool-cases config.ops_config.disk_async) [
          | inl a ↦ moved (rw (q, a) at e) (
              answers-fetch_async index port key add_to_cache w₁
              ∙ ap (λ t. t + at i p index port) (answers-count config disk_access key w w₁ q i p))
          | inr b ↦
              answers-fetch_now index port key add_to_cache w₁ w' (rw (q, b) at e)
              ∙ ap (λ t. t + at i p index port) (answers-count config disk_access key w w₁ q i p)
        ]
        | panics q ↦ absurd cc
        | breaks q ↦ absurd cc
      ]

  answers-respond_from_buffer :
      (index port : ℕ) (w : Server cache indexes net)
      → answers i p (respond_from_buffer config index port w)
        ≡ answers i p w + (if config.ops_config.rdma_async then 0 else at i p index port)
  answers-respond_from_buffer index port w = elim (Bool-cases config.ops_config.rdma_async) [
    | inl a ↦ rw a (omega arith)
    | inr b ↦ rw b (
        answers-send i p index port response_ok (take config.ops_config.value_size w.read_buffer) w)
  ]

  answers-read_by_index :
      (index port key : ℕ) (w : Server cache indexes net)
      → let (w', found) = read_by_index config index port key w in
        answers i p w' ≡ answers i p w + (if found then at i p index port else 0)
  unfolding read_by_index
  answers-read_by_index index port key w =
      elim (Option-cases (
        read_callback indexes config.num_servers (config.machine_index - config.server_start_index)
          key w.cache_indexes)) [
            | inl n ↦ rw (n, read_by_index) (omega arith)
            | inr (s, e) ↦
                rw (e, read_by_index)
                  (omega (
                    arith,
                    tally-append (λ r. at i p r.index r.port) w.index_reads
                        (record { index = index; port = port; expected_key = key } ∷ []),
                  ))
          ]

  answers-read_async :
      (index port key : ℕ) (w w' : Server cache indexes net)
      → read_async config index port key w ≡ ok w'
      → answers i p w' ≡ answers i p w + at i p index port
  unfolding read_async
  answers-read_async index port key w w' e =
      elim (ends (calculate_node_and_offset config.ops_config key)) [
        | returns q h ↦ elim (Bool-cases (w.free_ops q.node_index == 0)) [
          | inl z ↦ absurd (ground (arith, h))
          | inr f ↦ moved (rw (h, f) at e) (
              omega (
                arith,
                tally-append (λ r. at i p r.index r.port) w.rdma_ops
                    (record { node = q.node_index; offset = q.offset; index = index; port = port }
                      ∷ []),
              ))
        ]
        | panics h ↦ absurd cc
        | breaks h ↦ absurd cc
      ]

  answers-read_by_placement :
      (index port key : ℕ) (w w' : Server cache indexes net)
      → read_by_placement config index port key w ≡ ok w'
      → answers i p (respond_from_buffer config index port w') ≡ answers i p w + at i p index port
  unfolding read_by_placement calculate_node_and_offset read_correct_node
  answers-read_by_placement index port key w w' e = elim (Bool-cases config.ops_config.rdma_async) [
    | inl a ↦
        answers-respond_from_buffer index port w'
        ∙ rw a
            (omega (arith, answers-read_async index port key (count_rdma config w) w' (rw a at e)))
    | inr s ↦
        elim (ends
          (read_correct_node net config.ops_config config.server_start_index w.remote key)) [
            | returns block q ↦
                answers-respond_from_buffer index port w'
                ∙ rw s (
                    ap (λ t. t + at i p index port)
                      (moved (rw (s, q) at e) (refl {a = answers i p w})))
            | panics q ↦ absurd (ground arith)
            | breaks q ↦ absurd (ground arith)
          ]
  ]

  moved_with :
      (g : Bool → ℕ) {w w' : Server cache indexes net} {f f' : Bool}
      → ◌≡◌ {A = Outcome (Server cache indexes net × Bool)} (ok (w, f)) (ok (w', f'))
      → answers i p w ≡ g f
      → answers i p w' ≡ g f'
  moved_with g e h = subst (λ v. answers i p v.0 ≡ g v.1) (ok_injective e) h

  pub answers-read_remote :
      (index port key : ℕ) (w w' : Server cache indexes net) (found : Bool)
      → read_remote config index port key w ≡ ok (w', found)
      → answers i p w' ≡ answers i p w + remote_answers config i p index port found
  unfolding read_remote
  answers-read_remote index port key w w' found e =
      let due : Bool → ℕ = λ f. answers i p w + remote_answers config i p index port f in
      elim (Bool-cases config.one_sided_rdma_enabled) [
        | inr off ↦ moved_with due (rw off at e) (rw off (omega arith))
        | inl on ↦ elim (Bool-cases config.ingest_block_index) [
          | inr without ↦ absurd (ground arith)
          | inl ingest ↦ elim (Bool-cases config.use_cache_indexing) [
            | inl by_index ↦ moved_with due (rw (on, ingest, by_index) at e) (
                rw (on, by_index)
                  (ground (
                    arith,
                    answers-respond_from_buffer index port
                        (read_by_index config index port key w).0,
                    answers-read_by_index index port key w,
                  )))
            | inr by_place ↦ elim (ends (read_by_placement config index port key w)) [
              | returns w₁ q ↦ moved_with due (rw (on, ingest, by_place, q) at e) (
                  rw (on, by_place)
                    (omega (arith, answers-read_by_placement index port key w w₁ q)))
              | panics q ↦ absurd (ground arith)
              | breaks q ↦ absurd (ground arith)
            ]
          ]
        ]
      ]
