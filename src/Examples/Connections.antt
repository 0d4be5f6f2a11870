-- ===== src/Examples/Connections.antt =====
-- Two clients and a server: machines 0, 1 and 2, with the addresses 10, 11 and 12.
use twig_kv.Common.{
  ℕ, zero, suc, ◌+◌, ◌≡◌, ◌≢◌, refl, true, false, List, [], ◌∷◌, ◌++◌, Option, some, none, Outcome,
  ok, panic, arith, get_elem?, map, tally, if◌then◌else◌,
}
use twig_kv.Workload.Generate.{Operation}
use twig_kv.Server.State.{response_ok}
use twig_kv.Connection.{
  Flow, no_flow, Machine, Connection, Machnet, Data, get_request, get_response, unused, send,
  receive, dst_ip_to_machine_index, connect_retries, set_flow, reverse,
}
use twig_kv.Connection.Client.{
  new_client, count_others, send_requests, sync_with_other_clients, Tallied, execute_operations,
}
use twig_kv.Connection.Routing.{KeepsFlows, receive_all, send-receive_all}
use twig_kv.Connection.Links.{MachnetLaws, Answers, Leads, new_client_lem}
use twig_kv.Connection.Sync as Sync
use twig_kv.Connection.Sync.{Request, fresh, sync_with_other_clients_lem}
use twig_kv.Connection.Replies as Replies
use twig_kv.Connection.Replies.{Reply, packets, executed, wrong, execute_operations_lem}
use twig_kv.Examples.Setup.{ten_keys}

abbrev machines : List Machine
machines =
    record { ip = 10; port = 100; server = false }
    ∷ record { ip = 11; port = 100; server = false }
    ∷ record { ip = 12; port = 100; server = true }
    ∷ []

-- The second attempt of each connection succeeds, from the port 7.
abbrev second_try : (attempt ip remote_ip remote_port : ℕ) → Option Flow
second_try zero ip remote_ip remote_port = none
second_try (suc attempt) ip remote_ip remote_port =
    some (record { src_ip = ip; dst_ip = remote_ip; src_port = 7; dst_port = remote_port })

abbrev network : Machnet
network = record {
  attach = true;
  connect = second_try;
  listen = λ ip port. true;
  accepts = λ sent f. true;
}

network-laws : MachnetLaws network
network-laws = record { leads = leads }
  where
    leads :
        (attempt ip remote_ip remote_port : ℕ) (f : Flow)
        → second_try attempt ip remote_ip remote_port ≡ some f
        → (f.dst_ip ≡ remote_ip) × (f.dst_port ≡ remote_port)
    leads zero ip remote_ip remote_port f e = absurd cc
    leads (suc attempt) ip remote_ip remote_port f e = (cc, cc)

answers :
    (i : ℕ) (m : Machine)
    → get_elem? machines i ≡ some m
    → m.server ≡ true
    → i ≢ 0
    → Answers network connect_retries 0 10 m.ip (m.port + 0)
answers i m at server other = record {
  attempt = 1;
  low = omega arith;
  high = omega arith;
  flow = record { src_ip = 10; dst_ip = m.ip; src_port = 7; dst_port = m.port + 0 };
  made = refl;
}

new_client_lem_example :
    (c : Connection) × (new_client network machines 0 0 ≡ ok c)
    × (c.sent ≡ [])
    × ((i : ℕ) (m : Machine)
        → get_elem? machines i ≡ some m
        → m.server ≡ true
        → i ≢ 0
        → Leads 0 c i m)
new_client_lem_example =
    new_client_lem network network-laws machines 0 0
      (record { ip = 10; port = 100; server = false }) refl refl answers

-- The server, and the handler that takes requests down.
abbrev server : Connection
server = unused machines 2 0

abbrev note : ℕ → ℕ → Data → Connection × List ℕ → Outcome (Connection × List ℕ)
note index port packet (c, seen) = ok (c, index ∷ seen)

note-KeepsFlows : KeepsFlows note
note-KeepsFlows index port packet (c, seen) s' e = (cc, λ i p. cc)

-- A message from port 7 of machine 1, and one from port 8 of machine 0.
abbrev from_one : Flow
from_one = record { src_ip = 11; dst_ip = 12; src_port = 7; dst_port = 100 }

abbrev from_zero : Flow
from_zero = record { src_ip = 10; dst_ip = 12; src_port = 8; dst_port = 100 }

abbrev asked : Connection × List ℕ
asked = (set_flow 0 8 (reverse from_zero) (set_flow 1 7 (reverse from_one) server), 0 ∷ 1 ∷ [])

asked-run :
    receive_all note
      ((from_one, get_request 5 ∷ []) ∷ (from_zero, get_request 6 ∷ []) ∷ [])
      (server, [])
    ≡ ok asked
unfolding receive_all receive
asked-run = refl

send-receive_all_example :
    send network 1 7 (get_response response_ok (b'A' ∷ [])) asked.0
    ≡ ok (record asked.0 { sent = (reverse from_one, get_response response_ok (b'A' ∷ [])) ∷ [] })
unfolding dst_ip_to_machine_index
send-receive_all_example =
    send-receive_all note network from_one (get_request 5) [] ((from_zero, get_request 6 ∷ []) ∷ [])
      (server, []) asked (get_response response_ok (b'A' ∷ [])) note-KeepsFlows asked-run (refl, tt)
      refl

-- Client 0 waits for client 1.
abbrev client : Connection
client = unused machines 0 0

abbrev asked_one : Connection
asked_one = record client { sent = (no_flow, Data.client_sync_request response_ok 0) ∷ [] }

asked_one-run : send_requests network machines 0 client ≡ ok asked_one
unfolding send_requests
asked_one-run = refl

abbrev from_client_one : List Request
from_client_one = record { flow = from_one; index = 1 } ∷ []

sync_with_other_clients_lem_example :
    (c : Connection) × (sync_with_other_clients network
        (map Sync.arrives from_client_one ++ [])
        client
      ≡ (if fresh from_client_one [] then ok (some (c, [])) else panic))
unfolding count_others
sync_with_other_clients_lem_example =
    sync_with_other_clients_lem network from_client_one [] client asked_one refl asked_one-run

-- Client 0 has two operations for the server, which is node 1; the second response is wrong.
abbrev operations : List Operation
operations = record { key = 5; node = 1 } ∷ record { key = 6; node = 1 } ∷ []

abbrev replies : List Reply
replies =
    record { flow = from_zero; response_type = response_ok; value = b'A' ∷ [] }
    ∷ record { flow = from_zero; response_type = response_ok; value = b'B' ∷ [] }
    ∷ []

abbrev begun : Tallied
begun = record { connection = client; total_ops_executed = 0; wrong_value = 0 }

execute_operations_lem_example :
    (t : Tallied) × (execute_operations network ten_keys 2 0
        (λ n. false)
        operations
        (map Replies.arrives replies ++ [])
        begun
      ≡ ok (some (t, [])))
    × (t.total_ops_executed ≡ 0 + 2)
    × (t.wrong_value ≡ 0 + tally (wrong 1) replies)
    × (packets t.connection ≡ get_request 5 ∷ get_request 6 ∷ [])
unfolding executed
execute_operations_lem_example =
    execute_operations_lem network (λ sent f. refl) ten_keys 2 0 (λ n. false) operations replies []
      begun (omega arith, omega arith, (_, refl), (omega arith, omega arith, (_, refl), tt)) refl
