-- ===== src/Server/Answers/Reach.antt =====
-- The server over time: requests come in, reads are done and queues are flushed in any order.
use twig_kv.Common.{
  ℕ, ◌+◌, ◌≡◌, refl, ◌∙◌, ends, returns, panics, breaks, Bool, true, false, List, [], ◌∷◌, ◌++◌, ok,
  ap, sym, subst, arith, if◌then◌else◌, tally, tally-append, tally-middle, ok_injective,
}
use twig_kv.Index.Api.{IndexApi}
use twig_kv.Placement.{OneSided}
use twig_kv.Server.Api.{BlockCacheApi, Settings}
use twig_kv.Server.State.{
  Server, BlockCacheRequest, DiskRead, IndexRead, AsyncRdmaOp, response_ok, put_response,
}
use twig_kv.Server.Pending.{execute_pending_operations}
use twig_kv.Server.Handler.{handle_get, handle_put, handle_singleton_put, handle_delete}
use twig_kv.Server.Completions.{disk_done, index_done, rdma_done}
use twig_kv.Server.Answers.{at, answer_to, answered, answers}
use twig_kv.Server.Answers.Requests.{answers_from_buffer, moved}
use twig_kv.Server.Answers.Gets.{answers-handle_get}
use twig_kv.Server.Answers.Reads.{answers-disk_done, answers-index_done, answers-rdma_done}
use twig_kv.Server.Answers.Flush.{Fine, Flushed, execute_pending_operations_lem}
use twig_kv.Server.Failures.{failed, failed-moved}
use twig_kv.Server.Failures.Requests.{failed-handle_get}
use twig_kv.Server.Failures.Reads.{
  failed-disk_done, failed-rdma_done, failed-index_done, failed-Fine, failed-Flushed,
}

-- A client thread, as the server sees it: the machine and the port of the connection.
pub record Client : Type 0 where
  pub index : ℕ
  pub port : ℕ

-- The GET requests of a client.
abbrev pub asked : ℕ → ℕ → List Client → ℕ
asked i p gs = tally (λ c. at i p c.index c.port) gs

-- What a round sends and what it leaves are what was there.
due_or_left :
    (i p : ℕ) (b : Bool) (xs ys : List BlockCacheRequest)
    → ys ≡ (if b then [] else xs)
    → tally (λ r. at i p r.index r.port) (if b then xs else [])
        + tally (λ r. at i p r.index r.port) ys
      ≡ tally (λ r. at i p r.index r.port) xs
due_or_left i p true xs ys h = rw h (omega arith)
due_or_left i p false xs ys h = rw h (omega arith)

module _ {cache : BlockCacheApi} {indexes : IndexApi} {net : OneSided} (config : Settings) where
  -- The runs of a server from the state `w`, with the clients that sent a GET request, the last one
  -- first.
  pub data Run (w : Server cache indexes net)
      : List Client → Server cache indexes net → Type 0 where
    start : Run w [] w
    get :
        {gs : List Client} {v v' : Server cache indexes net} (warm : Bool) (index port key : ℕ)
        → Run w gs v
        → handle_get config warm index port key v ≡ ok v'
        → Run w (record { index = index; port = port } ∷ gs) v'
    put :
        {gs : List Client} {v v' : Server cache indexes net} (index key : ℕ) (value : List ℕ)
        → Run w gs v
        → handle_put config index key value v ≡ ok v'
        → Run w gs v'
    singleton_put :
        {gs : List Client} {v v' : Server cache indexes net} (key : ℕ) (value : List ℕ)
        (singleton : Bool) (forward_count : ℕ)
        → Run w gs v
        → handle_singleton_put config key value singleton forward_count v ≡ ok v'
        → Run w gs v'
    delete :
        {gs : List Client} {v : Server cache indexes net} (key : ℕ)
        → Run w gs v
        → Run w gs (handle_delete config key v)
    -- a `get_async` of the database calls back
    disk :
        {gs : List Client} {v v' : Server cache indexes net} (before : List DiskRead) (r : DiskRead)
        (after : List DiskRead) (value : List ℕ)
        → Run w gs v
        → v.disk_reads ≡ before ++ r ∷ after
        → disk_done config r value (record v { disk_reads = before ++ after }) ≡ ok v'
        → Run w gs v'
    -- a read of another server's storage is done
    index_read :
        {gs : List Client} {v v' : Server cache indexes net} (before : List IndexRead)
        (r : IndexRead) (after : List IndexRead) (key_index : ℕ) (bytes : List ℕ)
        → Run w gs v
        → v.index_reads ≡ before ++ r ∷ after
        → index_done config r key_index bytes (record v { index_reads = before ++ after }) ≡ ok v'
        → Run w gs v'
    -- the background thread finds an op that has completed
    rdma :
        {gs : List Client} {v : Server cache indexes net} (before : List AsyncRdmaOp)
        (op : AsyncRdmaOp) (after : List AsyncRdmaOp) (block : List ℕ)
        → Run w gs v
        → v.rdma_ops ≡ before ++ op ∷ after
        → Run w gs (rdma_done config op block (record v { rdma_ops = before ++ after }))
    flush :
        {gs : List Client} {v v' : Server cache indexes net}
        → Run w gs v
        → execute_pending_operations config v ≡ ok v'
        → Run w gs v'

  answers-handle_put :
      (i p index key : ℕ) (value : List ℕ) (v v' : Server cache indexes net)
      → handle_put config index key value v ≡ ok v'
      → answers i p v' ≡ answers i p v
  unfolding handle_put
  answers-handle_put i p index key value v v' e = elim (ends (cache.put key value v.block_cache)) [
    | returns state q ↦ moved config i p (rw q at e) (
        omega (
          arith,
          tally-append (answer_to i p) v.sent
              (put_response index (config.port index) response_ok ∷ []),
        ))
    | panics q ↦ absurd (ground arith)
    | breaks q ↦ absurd (ground arith)
  ]

  answers-handle_singleton_put :
      (i p key : ℕ) (value : List ℕ) (singleton : Bool) (forward_count : ℕ)
      (v v' : Server cache indexes net)
      → handle_singleton_put config key value singleton forward_count v ≡ ok v'
      → answers i p v' ≡ answers i p v
  unfolding handle_singleton_put
  answers-handle_singleton_put i p key value singleton forward_count v v' e =
      elim (ends (cache.put_singleton key value singleton forward_count v.block_cache)) [
        | returns state q ↦ moved config i p (rw q at e) refl
        | panics q ↦ absurd (ground arith)
        | breaks q ↦ absurd (ground arith)
      ]

  answers-handle_delete :
      (i p key : ℕ) (v : Server cache indexes net)
      → answers i p (handle_delete config key v) ≡ answers i p v
  unfolding handle_delete
  answers-handle_delete i p key v = refl

  failed-handle_put :
      (index key : ℕ) (value : List ℕ) (v v' : Server cache indexes net)
      → handle_put config index key value v ≡ ok v'
      → failed v' ≡ failed v
  unfolding handle_put
  failed-handle_put index key value v v' e = elim (ends (cache.put key value v.block_cache)) [
    | returns state q ↦ failed-moved (rw q at e) refl
    | panics q ↦ absurd (ground arith)
    | breaks q ↦ absurd (ground arith)
  ]

  failed-handle_singleton_put :
      (key : ℕ) (value : List ℕ) (singleton : Bool) (forward_count : ℕ)
      (v v' : Server cache indexes net)
      → handle_singleton_put config key value singleton forward_count v ≡ ok v'
      → failed v' ≡ failed v
  unfolding handle_singleton_put
  failed-handle_singleton_put key value singleton forward_count v v' e =
      elim (ends (cache.put_singleton key value singleton forward_count v.block_cache)) [
        | returns state q ↦ failed-moved (rw q at e) refl
        | panics q ↦ absurd (ground arith)
        | breaks q ↦ absurd (ground arith)
      ]

  failed-handle_delete :
      (key : ℕ) (v : Server cache indexes net) → failed (handle_delete config key v) ≡ failed v
  unfolding handle_delete
  failed-handle_delete key v = refl

  -- A server that starts without a failure in its queues never has one, so that
  -- `execute_pending_operations` never panics.
  Run-failed :
      {w v : Server cache indexes net} {gs : List Client} → failed w ≡ 0 → Run w gs v → failed v ≡ 0
  Run-failed clean start = clean
  Run-failed clean (get {gs} {v} {v'} warm index port key r e) =
      failed-handle_get config warm index port key v v' e ∙ Run-failed clean r
  Run-failed clean (put {gs} {v} {v'} index key value r e) =
      failed-handle_put index key value v v' e ∙ Run-failed clean r
  Run-failed clean (singleton_put {gs} {v} {v'} key value singleton forward_count r e) =
      failed-handle_singleton_put key value singleton forward_count v v' e ∙ Run-failed clean r
  Run-failed clean (delete {gs} {v} key r) = failed-handle_delete key v ∙ Run-failed clean r
  Run-failed clean (disk {gs} {v} {v'} before op after value r e run) =
      failed-disk_done config op value (record v { disk_reads = before ++ after }) v' run
      ∙ Run-failed clean r
  Run-failed clean (index_read {gs} {v} {v'} before op after key_index bytes r e run) =
      failed-index_done config op key_index bytes (record v { index_reads = before ++ after }) v'
        run
      ∙ Run-failed clean r
  Run-failed clean (rdma {gs} {v} before op after block r e) =
      failed-rdma_done config op block (record v { rdma_ops = before ++ after })
      ∙ Run-failed clean r
  Run-failed clean (flush {gs} {v} {v'} r e) =
      let f = failed-Fine config v (Run-failed clean r) in
      let (d, run, fl) = execute_pending_operations_lem config v f in
      failed-Flushed config v v' (Run-failed clean r)
        (subst (Flushed config v) (ok_injective (sym run ∙ e)) fl)

  answers-flushed :
      (i p : ℕ) (v v' : Server cache indexes net)
      → Fine config v
      → execute_pending_operations config v ≡ ok v'
      → answers i p v' ≡ answers i p v
  answers-flushed i p v v' f e =
      let (d, run, fl) = execute_pending_operations_lem config v f in
      ap (answers i p) (ok_injective (sym e ∙ run))
      ∙ omega (
        arith,
        fl.sent i p,
        fl.reads i p,
        ap (tally (λ r. at i p r.index r.port)) fl.rdma,
        due_or_left i p config.block_db_async v.block_cache_request_queue
            d.block_cache_request_queue fl.disk,
      )

  -- For settings that do not answer twice: through any run from a state whose queues report no
  -- failure, each client is owed as many answers more as it has sent GET requests.
  pub Run-answers :
      (i p : ℕ) {w v : Server cache indexes net} {gs : List Client}
      → answers_from_buffer config ≡ false
      → failed w ≡ 0
      → Run w gs v
      → answers i p v ≡ answers i p w + asked i p gs
  Run-answers i p once clean start = omega arith
  Run-answers i p once clean (get {gs} {v} {v'} warm index port key r e) = ground (
    arith,
    answers-handle_get config i p warm index port key v v' e,
    Run-answers i p once clean r,
  )
  Run-answers i p once clean (put {gs} {v} {v'} index key value r e) =
      answers-handle_put i p index key value v v' e ∙ Run-answers i p once clean r
  Run-answers i p once clean (singleton_put {gs} {v} {v'} key value singleton forward_count r e) =
      answers-handle_singleton_put i p key value singleton forward_count v v' e
      ∙ Run-answers i p once clean r
  Run-answers i p once clean (delete {gs} {v} key r) =
      answers-handle_delete i p key v ∙ Run-answers i p once clean r
  Run-answers i p once clean (disk {gs} {v} {v'} before op after value r e run) = omega (
    arith,
    answers-disk_done config i p op value (record v { disk_reads = before ++ after }) v' run,
    tally-middle (λ r. at i p r.index r.port) before op after,
    ap (tally (λ r. at i p r.index r.port)) e,
    Run-answers i p once clean r,
  )
  Run-answers i p once clean (index_read {gs} {v} {v'} before op after key_index bytes r e run) =
      omega (
        arith,
        answers-index_done config i p op key_index bytes
            (record v { index_reads = before ++ after }) v' run,
        tally-middle (λ r. at i p r.index r.port) before op after,
        ap (tally (λ r. at i p r.index r.port)) e,
        Run-answers i p once clean r,
      )
  Run-answers i p once clean (rdma {gs} {v} before op after block r e) = omega (
    arith,
    answers-rdma_done config i p op block (record v { rdma_ops = before ++ after }),
    tally-middle (λ r. at i p r.index r.port) before op after,
    ap (tally (λ r. at i p r.index r.port)) e,
    Run-answers i p once clean r,
  )
  Run-answers i p once clean (flush {gs} {v} {v'} r e) =
      answers-flushed i p v v' (failed-Fine config v (Run-failed clean r)) e
      ∙ Run-answers i p once clean r

  -- For settings that do not answer twice and that say that the database is asynchronous, and
  -- a server that starts without a failure in its queues: after any run in which no read is left
  -- under way, the next round of `execute_pending_operations` returns, and then each client has
  -- been sent exactly one answer for each of its GET requests, besides those that it was owed at
  -- the start.
  pub every_get_answered :
      {w v : Server cache indexes net} {gs : List Client}
      → answers_from_buffer config ≡ false
      → config.block_db_async ≡ true
      → failed w ≡ 0
      → Run w gs v
      → v.disk_reads ≡ []
      → v.index_reads ≡ []
      → v.rdma_ops ≡ []
      → (v' : Server cache indexes net) × (execute_pending_operations config v ≡ ok v')
        × ((i p : ℕ) → answered i p v' ≡ answers i p w + asked i p gs)
  every_get_answered {w} {v} {gs} once async clean r no_disk no_index no_op =
      let (v', run, fl) =
        execute_pending_operations_lem config v (failed-Fine config v (Run-failed clean r)) in
      (
        v',
        run,
        λ i p. omega (
          arith,
          Run-answers i p once clean r,
          fl.sent i p,
          ap (tally (λ r. at i p r.index r.port)) no_disk,
          ap (tally (λ r. at i p r.index r.port)) no_index,
          ap (tally (λ r. at i p r.index r.port)) no_op,
          ap
              (λ b.
                tally (λ r. at i p r.index r.port) (if b then v.block_cache_request_queue else []))
              async,
        ),
      )
