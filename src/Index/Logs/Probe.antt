-- ===== src/Index/Logs/Probe.antt =====
-- The connections that `append_entry` uses to ask whether another server has applied the last log,
-- and to send it the next one.
use twig_kv.Common.{ℕ, ◌+◌, ◌*◌, ◌<◌, ◌≡◌, Option, some, get_elem?}
use twig_kv.Index.Connect.{Endpoint, connect_qps, get_elem?-connect_qps}

-- `CACHE_INDEX_LOG_PORT`
abbrev pub cache_index_log_port : ℕ
cache_index_log_port = 50100

-- The read of `sizeof(CacheIndexLogEntry)` bytes at offset 0 for server `i`.
pub probed : ℕ → ℕ → ℕ → Option Endpoint
probed n me i = get_elem? (connect_qps n cache_index_log_port) (i * n + me)

-- The write of the whole log for server `i`.
pub sent_to : ℕ → ℕ → ℕ → Option Endpoint
sent_to n me i = get_elem? (connect_qps n cache_index_log_port) (me * n + i)

-- For two servers among `n`: the log goes to the other server's copy of this server's log, but
-- the probe for the other server reads this server's own copy of the other's log: the server
-- asks itself.
pub probed-sent_to :
    (n me i : ℕ)
    → me < n
    → i < n
    → (sent_to n me i ≡ some (record { server = i; port = cache_index_log_port + me }))
      × (probed n me i ≡ some (record { server = me; port = cache_index_log_port + i }))
unfolding probed sent_to
probed-sent_to n me i hm hi = (
  get_elem?-connect_qps n cache_index_log_port me i hm hi,
  get_elem?-connect_qps n cache_index_log_port i me hi hm,
)
