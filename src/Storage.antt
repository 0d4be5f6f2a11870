-- ===== src/Storage.antt =====
-- `RDMAData` and `RDMADataWithQueue` of src/ldc.h: the request tokens and the buffers of the reads
-- from other servers' storage. A token and a buffer are given by a number; each is in one queue.
pub mod Pool
use twig_kv.Common.{
  ℕ, zero, suc, ◌+◌, List, [], ◌∷◌, ◌++◌, Option, none, some, Outcome, ok, panic, ◌>>=◌,
}

-- `DataWithRequestToken` of a read that is under way.
pub record PendingRead : Type 0 where
  pub data_buffer : ℕ
  pub token : ℕ
  pub remote_index : ℕ

pub record Storage : Type 0 where
  pub free_request_token_queue : List ℕ
  pub free_queue : List ℕ
  pub pending_read_queue : List PendingRead

-- The numbers from `i` on.
unfoldable pub numbers : ℕ → ℕ → List ℕ
numbers zero i = []
numbers (suc n) i = i ∷ numbers n (i + 1)

-- `FreeRequestTokenQueueSize` tokens and `queue_size` buffers.
abbrev pub new : ℕ → ℕ → Storage
new tokens queue_size = record {
  free_request_token_queue = numbers tokens 0;
  free_queue = numbers queue_size 0;
  pending_read_queue = [];
}

unfoldable pub get_request_token : Storage → Outcome (ℕ × Storage)
get_request_token s = elim s.free_request_token_queue [
  | [] ↦ panic
  | token ∷ rest ↦ ok (token, record s { free_request_token_queue = rest })
]

unfoldable pub free_request_token : ℕ → Storage → Storage
free_request_token token s = record s {
  free_request_token_queue = s.free_request_token_queue ++ token ∷ [];
}

-- `read`: `none` says that the call goes on waiting, since no buffer is free.
unfoldable pub read : ℕ → Storage → Outcome (Option Storage)
unfolding get_request_token
read remote_index s = elim s.free_queue [
  | [] ↦ ok none
  | buffer ∷ rest ↦ do
    (token, s') ← get_request_token (record s { free_queue = rest })
    ok (
        some (record s' {
          pending_read_queue =
              s'.pending_read_queue
              ++ record { data_buffer = buffer; token = token; remote_index = remote_index } ∷ [];
        }))
]

-- The loop of `execute_pending`: the reads are handled in the order in which they were posted, and
-- the token and the buffer of each are free again after its callback.
unfoldable pub execute_loop : List PendingRead → Storage → Storage
unfolding free_request_token
execute_loop [] s = s
execute_loop (r ∷ rs) s =
    let s' = free_request_token r.token (record s { pending_read_queue = rs }) in
    execute_loop rs (record s' { free_queue = s'.free_queue ++ r.data_buffer ∷ [] })

unfoldable pub execute_pending : Storage → Storage
unfolding execute_loop
execute_pending s = execute_loop s.pending_read_queue s
