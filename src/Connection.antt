-- ===== src/Connection.antt =====
-- src/connection.h and src/connection.cpp: which flow a packet goes over, what is done with one that
-- comes in, and the clients' calls. Machnet and capnp are no part of the repository.
pub mod Client
pub mod Routing
pub mod Sync
pub mod Sources
pub mod Links
pub mod Replies
use twig_kv.Common.{
  ℕ, zero, suc, ◌+◌, Bool, true, false, ◌&&◌, List, [], ◌∷◌, ◌++◌, Option, none, some, Outcome, ok,
  panic, undefined, ◌>>=◌, ◌==◌, if◌then◌else◌, get_elem?,
}
use twig_kv.Server.State.{ResponseType}

-- `MachnetFlow`
pub record Flow : Type 0 where
  pub src_ip : ℕ
  pub dst_ip : ℕ
  pub src_port : ℕ
  pub dst_port : ℕ

-- `MachnetFlow{}`
abbrev pub no_flow : Flow
no_flow = record { src_ip = 0; dst_ip = 0; src_port = 0; dst_port = 0 }

-- `Packet.data` of src/packet.capnp, by what the clients use of it.
pub data Data : Type 0 where
  put_request : ℕ → List ℕ → Data
  put_response : ResponseType → Data
  get_request : ℕ → Data
  get_response : ResponseType → List ℕ → Data
  client_sync_request : ResponseType → ℕ → Data
  other_request : Data

-- `RemoteMachineConfig`
pub record Machine : Type 0 where
  pub ip : ℕ
  pub port : ℕ
  pub server : Bool

-- `Connection`. A look-up in `machine_index_to_connection` adds the flow of zeros under a key that it
-- does not have. `sent` is what has been handed to Machnet.
pub record Connection : Type 0 where
  pub machines : List Machine
  pub machine_index : ℕ
  pub thread_index : ℕ
  pub flows : ℕ → ℕ → Flow
  pub sent : List (Flow × Data)

-- What Machnet answers: to `machnet_attach`, to the `attempt`-th call of `machnet_connect` from `ip` to the other address
-- and port, to `machnet_listen`, and to `machnet_send` after the packets that have been sent.
pub record Machnet : Type 0 where
  pub attach : Bool
  pub connect : (attempt ip remote_ip remote_port : ℕ) → Option Flow
  pub listen : (ip port : ℕ) → Bool
  pub accepts : List (Flow × Data) → Flow → Bool

abbrev pub machine_at : Connection → ℕ → Outcome Machine
machine_at c i = elim (get_elem? c.machines i) [ none ↦ undefined | some m ↦ ok m ]

abbrev pub set_flow : ℕ → ℕ → Flow → Connection → Connection
set_flow index port flow c = record c {
  flows = λ i p. if (i == index) && (p == port) then flow else c.flows i p;
}

-- `dst_ip_to_machine_index`: a later machine with the same address replaces an earlier one, and an
-- address that is not there gives 0.
unfoldable pub index_from : ℕ → List Machine → ℕ → ℕ → ℕ
index_from i [] ip found = found
index_from i (m ∷ ms) ip found = index_from (i + 1) ms ip (if m.ip == ip then i else found)

unfoldable pub dst_ip_to_machine_index : Connection → ℕ → ℕ
unfolding index_from
dst_ip_to_machine_index c ip = index_from 0 c.machines ip 0

-- The fields of a new connection.
abbrev pub unused : List Machine → ℕ → ℕ → Connection
unused machines machine_index thread_index = record {
  machines = machines;
  machine_index = machine_index;
  thread_index = thread_index;
  flows = λ i p. no_flow;
  sent = [];
}

-- `MACHNET_CONNECT_RETRIES`
abbrev pub connect_retries : ℕ
connect_retries = 1000000

module _ (net : Machnet) where
  -- The constructor, with the assertion on `machnet_attach`.
  unfoldable pub new_connection : List Machine → ℕ → ℕ → Outcome Connection
  new_connection machines machine_index thread_index = do
    me ← machine_at (unused machines machine_index thread_index) machine_index
    if net.attach then ok (unused machines machine_index thread_index) else panic

  -- The loop of `connect_to_remote_machine`, which ends at the first attempt that succeeds.
  unfoldable pub connect_loop : (rounds attempt ip remote_ip remote_port : ℕ) → Option Flow
  connect_loop zero attempt ip remote_ip remote_port = none
  connect_loop (suc rounds) attempt ip remote_ip remote_port =
      elim (net.connect attempt ip remote_ip remote_port) [
        | some flow ↦ some flow
        | none ↦ connect_loop rounds (attempt + 1) ip remote_ip remote_port
      ]

  unfoldable pub connect_to_remote_machine : ℕ → Connection → Outcome Connection
  unfolding connect_loop
  connect_to_remote_machine remote_index c = do
    me ← machine_at c c.machine_index
    remote ← machine_at c remote_index
    elim (connect_loop connect_retries 0 me.ip remote.ip (remote.port + c.thread_index)) [
      | none ↦ panic
      | some flow ↦ ok (set_flow remote_index (remote.port + c.thread_index) flow c)
    ]

  unfoldable pub listen : Connection → Outcome Connection
  listen c = do
    me ← machine_at c c.machine_index
    if net.listen me.ip (me.port + c.thread_index)
        then ok (set_flow c.machine_index (me.port + c.thread_index) no_flow c)
        else panic

  -- `send(index, port, data)`
  unfoldable pub send : ℕ → ℕ → Data → Connection → Outcome Connection
  send index port packet c =
      if net.accepts c.sent (c.flows index port)
      then ok (record c { sent = c.sent ++ (c.flows index port, packet) ∷ [] })
      else panic

  -- `send(index, data)`, to the base port
  unfoldable pub send_base : ℕ → Data → Connection → Outcome Connection
  unfolding send
  send_base index packet c = do m ← machine_at c index; send index m.port packet c

-- What `machnet_recv` returns: nothing, an error, or a message with its flow and packets.
pub data Arrival : Type 0 where
  nothing : Arrival
  failed : Arrival
  message : Flow → List Data → Arrival

-- The flow back.
abbrev pub reverse : Flow → Flow
reverse f = record {
  src_ip = f.dst_ip;
  dst_ip = f.src_ip;
  src_port = f.dst_port;
  dst_port = f.src_port;
}

-- A call of `machnet_recv`, and whether `g_stop` is set after it.
pub record Poll : Type 0 where
  pub arrival : Arrival
  pub stop : Bool

module _ {ℓ} {S : Type ℓ} (handler : ℕ → ℕ → Data → Connection × S → Outcome (Connection × S)) where
  -- The loop of `receive` over the packets of a message.
  unfoldable pub receive_packets : Flow → List Data → Connection × S → Outcome (Connection × S)
  unfolding dst_ip_to_machine_index
  receive_packets rx [] s = ok s
  receive_packets rx (packet ∷ packets) (c, s) =
      let remote_index = dst_ip_to_machine_index c rx.src_ip in
      handler remote_index rx.src_port packet (set_flow remote_index rx.src_port (reverse rx) c, s)
      >>= receive_packets rx packets

  -- `receive`, with the flag that it returns
  unfoldable pub receive : Arrival → Connection × S → Outcome (Bool × (Connection × S))
  unfolding receive_packets
  receive nothing s = ok (false, s)
  receive failed s = panic
  receive (message rx packets) s = do t ← receive_packets rx packets s; ok (true, t)

  -- `poll_receive` over the calls of `machnet_recv` that are given, with those that are left. If they
  -- do not end it, it goes on waiting.
  unfoldable pub poll_receive :
      List Poll → Connection × S → Outcome (Option ((Connection × S) × List Poll))
  unfolding receive
  poll_receive [] s = ok none
  poll_receive (p ∷ ps) s = do
    (received, t) ← receive p.arrival s
    let rest = poll_receive ps t
    elim received [ true ↦ ok (some (t, ps)) | false ↦ if p.stop then ok (some (t, ps)) else rest ]
