-- ===== src/Examples/Indexes.antt =====
-- Two servers with their cache indexes.
use twig_kv.Common.{
  ℕ, ◌+◌, ◌<◌, ◌≡◌, ◌≢◌, refl, [], ok, some, none, arith, ◌==◌, if◌then◌else◌, inl,
}
use twig_kv.Index.Connect.{connect_qps}
use twig_kv.Index.Tables.{
  Cluster, request, dealloc_remote, execute_pending, read_callback, update_local_key, transfer,
}
use twig_kv.Index.Coherence.{IsCoherent, evict, complete}
use twig_kv.Index.Coherence.Reach.{
  Reach, Step-IsCoherent, here, next, copies_agree, execute_pending-IsCoherent,
}
use twig_kv.Index.Lookup.{read_callback-update_local_key}
use twig_kv.Index.Logs.Probe.{probed, sent_to, cache_index_log_port, probed-sent_to}
use twig_kv.Examples.Setup.{tables, tables_laws, Tables, put_entry}

-- No server has any key.
abbrev no_keys : Tables
no_keys s t k = 999

abbrev idle : Cluster tables
idle = record { memory = no_keys; pending = λ s. [] }

-- Server 0 has key 3 at offset 40.
abbrev one_entry : Cluster tables
one_entry = record { memory = put_entry no_keys 0 0 3 40; pending = λ s. [] }

idle-IsCoherent : IsCoherent tables 2 idle
idle-IsCoherent = record { addressed = λ me lt. tt; copied = λ me i key hm hi ne. inl refl }

-- The state after server 0 has dropped key 3, with its request still posted.
abbrev dropped : Cluster tables
dropped = dealloc_remote tables 2 0 3 idle

dropped-IsCoherent : IsCoherent tables 2 dropped
dropped-IsCoherent =
    Step-IsCoherent tables tables_laws 2 (evict 0 3 (omega arith) refl) idle-IsCoherent

-- The state after that request has gone through.
abbrev settled : Cluster tables
settled = record {
  memory = put_entry dropped.memory 1 0 3 (dropped.memory 0 0 3);
  pending = λ s. if s == 0 then [] else dropped.pending s;
}

settled-Reach : Reach tables tables_laws 2 idle settled
unfolding dealloc_remote transfer connect_qps
settled-Reach =
    next (next here (evict 0 3 (omega arith) refl))
      (complete 0 [] [] (request tables 2 0 1 3) (omega arith) refl refl)

settled-quiet : (s : ℕ) → s < 2 → settled.pending s ≡ []
unfolding dealloc_remote
settled-quiet s lt = ground arith

copies_agree_example : ◌≡◌ {A = ℕ} (settled.memory 1 0 3) (settled.memory 0 0 3)
copies_agree_example =
    copies_agree tables tables_laws 2 idle-IsCoherent settled-Reach settled-quiet 0 1 3
      (omega arith) (omega arith)

execute_pending-IsCoherent_example :
    (d : Cluster tables) × (execute_pending tables 2 0 dropped ≡ ok d)
    × IsCoherent tables 2 d
    × (d.pending 0 ≡ [])
    × ((s : ℕ) → s ≢ 0 → d.pending s ≡ dropped.pending s)
execute_pending-IsCoherent_example =
    execute_pending-IsCoherent tables tables_laws 2 0 dropped (omega arith) dropped-IsCoherent

-- Server 1 knows of key 3 on server 0.
abbrev known : Tables
known = put_entry no_keys 1 0 3 40

-- The entry led to key 4 instead.
read_callback-update_local_key_example :
    let mem' = update_local_key tables 2 1 3 4 known in
    (read_callback tables 2 1 3 mem' ≡ read_callback tables 2 1 3 known)
    × (read_callback tables 2 1 4 mem' ≡ none)
read_callback-update_local_key_example =
    read_callback-update_local_key tables tables_laws 2 1 3 4 known (omega arith) (omega arith) refl

probed-sent_to_example :
    (sent_to 2 0 1 ≡ some (record { server = 1; port = cache_index_log_port + 0 }))
    × (probed 2 0 1 ≡ some (record { server = 0; port = cache_index_log_port + 1 }))
probed-sent_to_example = probed-sent_to 2 0 1 (omega arith) (omega arith)
