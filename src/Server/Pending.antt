-- ===== src/Server/Pending.antt =====
-- `Server::execute_pending_operations` of src/connection.cpp, which each round of the server's loop
-- begins with: everything that is queued is sent.
use twig_kv.Common.{List, [], ◌∷◌, Outcome, ok, panic, ◌>>=◌, if◌then◌else◌}
use twig_kv.Index.Api.{IndexApi}
use twig_kv.Placement.{OneSided}
use twig_kv.Server.Api.{BlockCacheApi, Settings}
use twig_kv.Server.State.{
  RdmaGetResponse, BlockCacheRequest, AppendSingletonPutRequest, AppendDeleteRequest, Server, is_ok,
  send_get_response, send_singleton_put_request, send_delete_request,
}

module _ {cache : BlockCacheApi} {indexes : IndexApi} {net : OneSided} where
  -- The loop over `rdma_get_response_queue`.
  unfoldable pub drain_rdma :
      List RdmaGetResponse → Server cache indexes net → Outcome (Server cache indexes net)
  drain_rdma [] w = ok w
  drain_rdma (r ∷ rs) w =
      if is_ok r.response_type
      then drain_rdma rs (
          send_get_response r.index r.port r.response_type r.value
            (record w { rdma_get_response_queue = rs }))
      else panic

  -- The loop over `block_cache_request_queue`.
  unfoldable pub drain_disk :
      List BlockCacheRequest → Server cache indexes net → Outcome (Server cache indexes net)
  drain_disk [] w = ok w
  drain_disk (r ∷ rs) w =
      if is_ok r.response_type
      then drain_disk rs (
          send_get_response r.index r.port r.response_type r.value
            (record w { block_cache_request_queue = rs }))
      else panic

  -- The loop over `singleton_put_request_queue`.
  unfoldable pub drain_singletons :
      List AppendSingletonPutRequest → Server cache indexes net → Outcome (Server cache indexes net)
  drain_singletons [] w = ok w
  drain_singletons (r ∷ rs) w =
      if is_ok r.response_type
      then drain_singletons rs (
          send_singleton_put_request r.index r.port r.key r.value r.singleton r.forward_count
            (record w { singleton_put_request_queue = rs }))
      else panic

  -- The loop over `delete_request_queue`.
  unfoldable pub drain_deletes :
      List AppendDeleteRequest → Server cache indexes net → Server cache indexes net
  drain_deletes [] w = w
  drain_deletes (r ∷ rs) w =
      drain_deletes rs
        (send_delete_request r.index r.port r.key (record w { delete_request_queue = rs }))

  unfoldable pub execute_pending_operations :
      Settings → Server cache indexes net → Outcome (Server cache indexes net)
  unfolding drain_rdma drain_disk drain_singletons drain_deletes
  execute_pending_operations config w = do
    w₁ ← drain_rdma w.rdma_get_response_queue w
    w₂ ← if config.block_db_async then drain_disk w₁.block_cache_request_queue w₁ else ok w₁
    w₃ ← drain_singletons w₂.singleton_put_request_queue w₂
    ok (drain_deletes w₃.delete_request_queue w₃)
