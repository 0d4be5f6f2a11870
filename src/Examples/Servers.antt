-- ===== src/Examples/Servers.antt =====
-- Server 1 of two gets requests for key 5, which is not in its cache.
use twig_kv.Common.{none, true, tally, ℕ, ◌+◌, ◌≡◌, refl, arith, List, [], ◌∷◌, Outcome, ok, false}
use twig_kv.Index.Tables.{read_callback}
use twig_kv.Snapshot as Snapshot
use twig_kv.Server.State.{get_response, response_ok, Server, DiskRead, always}
use twig_kv.Server.Pending.{execute_pending_operations}
use twig_kv.Server.Handler.{handle_get}
use twig_kv.Server.Completions.{disk_done}
use twig_kv.Server.Answers.{answered, answers}
use twig_kv.Server.Answers.Gets.{answers-handle_get}
use twig_kv.Server.Answers.Flush.{Fine, Flushed, execute_pending_operations_lem}
use twig_kv.Server.Answers.Reach.{
  Client, Run, start, get, disk, asked, Run-answers, every_get_answered,
}
use twig_kv.Server.Delivery.{
  Event, receives, sends, deliver, response_to, deliver-every_get_answered,
}
use twig_kv.Connection.{
  Flow, Machine, Machnet, Connection, get_request, unused, dst_ip_to_machine_index,
}
use twig_kv.Examples.Setup.{one_key, tables, network, settings, ten_keys}

abbrev State : Type 0
State = Server one_key tables network

abbrev initial : State
initial = record {
  block_cache = 0;
  cache_indexes = λ s t k. 999;
  remote = λ s a. 0;
  snapshot = Snapshot.new ten_keys;
  counters = record {
    total_ops_executed = 0;
    local_disk_access = 0;
    remote_disk_access = 0;
    total_disk_ops_executed = 0;
    total_rdma_executed = 0;
    cache_freq_addition = 0;
    remote_rdma_cache_hits = 0;
    async_disk_requests = 0;
  };
  sent = [];
  rdma_get_response_queue = [];
  block_cache_request_queue = [];
  singleton_put_request_queue = [];
  delete_request_queue = [];
  disk_reads = [];
  index_reads = [];
  rdma_ops = [];
  free_ops = λ s. 4;
  read_buffer = [];
}

-- The state that a call returns, or the one before.
abbrev state_of : Outcome State → State
state_of o = elim o [ ok v ↦ v | _ ↦ initial ]

-- After the GET request of the thread at port 40 of machine 0.
abbrev requested : State
requested = state_of (handle_get settings false 0 40 5 initial)

requested-ok : handle_get settings false 0 40 5 initial ≡ ok requested
unfolding handle_get Snapshot.new Snapshot.update read_callback
requested-ok = refl

answers-handle_get_example : answers 0 40 requested ≡ answers 0 40 initial + (1 + 0)
answers-handle_get_example =
    answers-handle_get settings 0 40 false 0 40 5 initial requested requested-ok

-- The read of the database that the request has started.
abbrev from_disk : DiskRead
from_disk = record { index = 0; port = 40; key = 5; keep = always }

abbrev fetched : State
fetched = state_of (disk_done settings from_disk (5 ∷ []) (record requested { disk_reads = [] }))

abbrev clients : List Client
clients = record { index = 0; port = 40 } ∷ []

fetched-Run : Run settings initial clients fetched
unfolding handle_get Snapshot.new Snapshot.update read_callback disk_done
fetched-Run = disk [] from_disk [] (5 ∷ []) (get false 0 40 5 start requested-ok) refl refl

Run-answers_example : answers 0 40 fetched ≡ answers 0 40 initial + asked 0 40 clients
Run-answers_example = Run-answers settings 0 40 refl refl fetched-Run

fetched-Fine : Fine settings fetched
unfolding handle_get Snapshot.new Snapshot.update read_callback disk_done
fetched-Fine = record { rdma = tt; disk = (refl, tt); singletons = tt }

execute_pending_operations_lem_example :
    (v : State) × (execute_pending_operations settings fetched ≡ ok v) × Flushed settings fetched v
execute_pending_operations_lem_example =
    execute_pending_operations_lem settings fetched fetched-Fine

every_get_answered_example :
    (v : State) × (execute_pending_operations settings fetched ≡ ok v)
    × ((i p : ℕ) → answered i p v ≡ answers i p initial + asked i p clients)
unfolding handle_get Snapshot.new Snapshot.update read_callback disk_done
every_get_answered_example = every_get_answered settings refl refl refl fetched-Run refl refl refl

-- The connection of the server, which has got the request from port 40 of machine 0.
abbrev machines : List Machine
machines =
    record { ip = 10; port = 40; server = false }
    ∷ record { ip = 11; port = 7001; server = true }
    ∷ []

abbrev machnet : Machnet
machnet = record {
  attach = true;
  connect = λ attempt ip remote_ip remote_port. none;
  listen = λ ip port. true;
  accepts = λ sent f. true;
}

abbrev listening : Connection
listening = unused machines 1 0

abbrev from_client : Flow
from_client = record { src_ip = 10; dst_ip = 11; src_port = 40; dst_port = 7001 }

fresh_answers : (j q : ℕ) → answers j q initial ≡ 0
fresh_answers j q = refl

-- The request comes, and the response goes back.
abbrev events : List Event
events =
    receives from_client (get_request 5 ∷ []) ∷ sends (get_response 0 40 response_ok (5 ∷ [])) ∷ []

deliver-every_get_answered_example :
    (c : Connection) × (deliver machnet events listening ≡ ok c)
    × (tally (response_to 10 40) c.sent ≡ 0 + asked 0 40 clients)
unfolding handle_get Snapshot.new Snapshot.update read_callback disk_done execute_pending_operations
    dst_ip_to_machine_index
deliver-every_get_answered_example =
    deliver-every_get_answered machnet (λ sent f. refl) (λ j. 10 + j) 0 40 (λ j e. omega arith)
      settings listening events refl refl refl fresh_answers fetched-Run refl refl refl refl refl
      (refl, (λ j q h. ground arith, tt))

-- A PUT request from port 41 of machine 0, whose base port is 40.
abbrev from_thread : Flow
from_thread = record { src_ip = 10; dst_ip = 11; src_port = 41; dst_port = 7001 }
