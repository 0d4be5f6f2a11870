-- ===== src/Connection/Client.antt =====
-- `Client` and the constructor of `Server` of src/connection.cpp, and the client's part of src/ldc.cpp.
use twig_kv.Common.{
  ℕ, zero, suc, ◌+◌, ◌-◌, Bool, true, false, not, ◌&&◌, ◌||◌, List, [], ◌∷◌, Option, none, some,
  Outcome, ok, panic, undefined, ◌>>=◌, ◌==◌, ltb, if◌then◌else◌, length,
}
use twig_kv.Placement.{to_int}
use twig_kv.Config.{Configuration}
use twig_kv.Workload.Generate.{Operation}
use twig_kv.Server.State.{response_ok}
use twig_kv.Connection.{
  Machine, Connection, Machnet, Data, put_request, get_request, get_response, client_sync_request,
  Poll, machine_at, new_connection, connect_to_remote_machine, listen, send, send_base,
  poll_receive,
}

-- Waiting on, or done with the value and the calls of `machnet_recv` that are left.
abbrev pub Waited : Type 0 → Type 0
Waited S = Option (S × List Poll)

-- Whether the bytes are `VALUE_SIZE` times the letter A.
unfoldable pub is_value : ℕ → List ℕ → Bool
is_value zero [] = true
is_value zero (b ∷ bs) = false
is_value (suc n) [] = false
is_value (suc n) (b ∷ bs) = (b == 65) && is_value n bs

-- The machines before the first server, which `client_worker` counts.
unfoldable pub start_client_index : List Machine → ℕ
start_client_index [] = 0
start_client_index (m ∷ ms) = let rest = suc (start_client_index ms) in if m.server then 0 else rest

-- What a client thread has counted: the operations and the wrong values.
pub record Tallied : Type 0 where
  pub connection : Connection
  pub total_ops_executed : ℕ
  pub wrong_value : ℕ

-- `.cStr()` as a `std::string`: the bytes before the first NUL.
unfoldable pub until_nul : List ℕ → List ℕ
until_nul [] = []
until_nul (b ∷ bs) = let rest = until_nul bs in if b == 0 then [] else b ∷ rest

-- The handler of `get`: any response to a GET request sets the value.
unfoldable pub take_value : ℕ → ℕ → Data → Connection × List ℕ → Outcome (Connection × List ℕ)
unfolding until_nul
take_value index port packet (c, value) = elim packet [
  | get_response response_type v ↦ ok (c, until_nul v)
  | _ ↦ ok (c, value)
]

-- The number of other clients.
unfoldable pub count_others : List Machine → ℕ → ℕ → ℕ
count_others [] i me = 0
count_others (m ∷ ms) i me =
    (if not (i == me) && not m.server then 1 else 0) + count_others ms (i + 1) me

-- `request_acks[index] = true`, where the map is the list of its keys. They are of type `int`, and
-- the index of a message has 64 bits: its low 32 bits are the key.
unfoldable pub acked : ℕ → List ℕ → Bool
acked index [] = false
acked index (a ∷ acks) = (a == index) || acked index acks

abbrev pub take_ack : ℕ → ℕ → Data → Connection × List ℕ → Outcome (Connection × List ℕ)
take_ack remote_index port packet (c, acks) = elim packet [
  | client_sync_request response_type index ↦
      ok (c, if acked (to_int index) acks then acks else to_int index ∷ acks)
  | _ ↦ ok (c, acks)
]

-- The loop that waits for as many messages as there are other clients.
unfoldable pub wait_requests :
    ℕ → List Poll → Connection × List ℕ → Outcome (Waited (Connection × List ℕ))
unfolding poll_receive acked
wait_requests zero polls s = ok (some (s, polls))
wait_requests (suc rounds) polls s = poll_receive take_ack polls s >>= λ r. elim r [
  | none ↦ ok none
  | some (t, left) ↦ wait_requests rounds left t
]

module _ (net : Machnet) where
  -- The loops that connect to the other machines that are servers, or to those that are not.
  unfoldable pub connect_machines : Bool → List Machine → ℕ → Connection → Outcome Connection
  unfolding connect_to_remote_machine
  connect_machines servers [] i c = ok c
  connect_machines servers (m ∷ ms) i c =
      let wanted = not (i == c.machine_index) && (if servers then m.server else not m.server) in
      (if wanted then connect_to_remote_machine net i c else ok c)
      >>= connect_machines servers ms (i + 1)

  -- The constructor of `Client`.
  unfoldable pub new_client : List Machine → ℕ → ℕ → Outcome Connection
  unfolding connect_machines new_connection
  new_client machines machine_index thread_index =
      new_connection net machines machine_index thread_index >>= connect_machines true machines 0

  -- The constructor of `Server`.
  unfoldable pub new_server : List Machine → ℕ → ℕ → Outcome Connection
  unfolding connect_machines listen new_connection
  new_server machines machine_index thread_index =
      new_connection net machines machine_index thread_index
      >>= listen net
      >>= connect_machines true machines 0

  unfoldable pub connect_to_other_clients : Connection → Outcome Connection
  unfolding connect_machines listen
  connect_to_other_clients c = listen net c >>= connect_machines false c.machines 0

  unfoldable pub get : ℕ → ℕ → ℕ → List Poll → Connection → Outcome (Waited (Connection × List ℕ))
  unfolding send poll_receive take_value
  get index thread_index key polls c = do
    m ← machine_at c index
    c₁ ← send net index (m.port + thread_index) (get_request key) c
    poll_receive take_value polls (c₁, [])

  -- `put` waits for a packet and looks at nothing in it.
  unfoldable pub put :
      ℕ → ℕ → ℕ → List ℕ → List Poll → Connection → Outcome (Waited (Connection × List ℕ))
  unfolding send poll_receive
  put index thread_index key value polls c = do
    m ← machine_at c index
    c₁ ← send net index (m.port + thread_index) (put_request key value) c
    poll_receive (λ index port packet s. ok s) polls (c₁, [])

  unfoldable pub send_requests : List Machine → ℕ → Connection → Outcome Connection
  unfolding send_base
  send_requests [] i c = ok c
  send_requests (m ∷ ms) i c =
      (if not (i == c.machine_index) && not m.server
        then send_base net i (client_sync_request response_ok c.machine_index) c
        else ok c)
      >>= send_requests ms (i + 1)

  unfoldable pub sync_with_other_clients : List Poll → Connection → Outcome (Waited Connection)
  unfolding count_others send_requests wait_requests
  sync_with_other_clients polls c = do
    let total_other_clients = count_others c.machines 0 c.machine_index
    c₁ ← send_requests c.machines 0 c
    r ← wait_requests total_other_clients polls (c₁, [])
    elim r [
      | none ↦ ok none
      | some ((c₂, request_acks), left) ↦
          if length request_acks == total_other_clients then ok (some (c₂, left)) else panic
    ]

  -- One pass of `execute_operations` of src/ldc.cpp over the operations, which ends early when the
  -- run time is over: `over` says so after the operation with that number. Every operation is a GET
  -- request, whatever its `op` is. It goes to the machine `node + start_index - 1`.
  unfoldable pub execute_operations :
      Configuration
      → (start_index thread_index : ℕ) → (ℕ → Bool)
      → List Operation
      → List Poll
      → Tallied
      → Outcome (Waited Tallied)
  unfolding get is_value
  execute_operations ops_config start_index thread_index over [] polls t = ok (some (t, polls))
  execute_operations ops_config start_index thread_index over (o ∷ os) polls t =
      if ltb ops_config.num_nodes o.node
      then panic
      else if o.node + start_index == 0
      then undefined
      else get (o.node + start_index - 1) thread_index o.key polls t.connection >>= λ r. elim r [
        | none ↦ ok none
        | some ((c, v), left) ↦
            let t' : Tallied = record {
              connection = c;
              total_ops_executed = t.total_ops_executed + 1;
              wrong_value = t.wrong_value + (if is_value ops_config.value_size v then 0 else 1);
            } in
            let rest = execute_operations ops_config start_index thread_index over os left t' in
            if over t.total_ops_executed then ok (some (t', left)) else rest
      ]
