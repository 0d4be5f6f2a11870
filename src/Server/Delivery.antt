-- ===== src/Server/Delivery.antt =====
-- The packets of the server thread on the network: each is handed to `send` of src/connection.cpp with
-- its machine and its port.
use twig_kv.Common.{
  sym, Bool-cases, inl, inr, ok_injective, ℕ, ◌+◌, ◌≡◌, ◌≤◌, refl, ap, ◌∙◌, true, false, ◌&&◌, List,
  [], ◌∷◌, ◌++◌, Outcome, ok, ◌>>=◌, arith, ◌==◌, if◌then◌else◌, if_true, bind_ok, tally,
  tally-append,
}
use twig_kv.Index.Api.{IndexApi}
use twig_kv.Placement.{OneSided}
use twig_kv.Server.Api.{BlockCacheApi, Settings}
use twig_kv.Server.State.{Server, Packet}
use twig_kv.Server.State as State
use twig_kv.Server.Pending.{execute_pending_operations}
use twig_kv.Server.Answers.{answer_to, answered, answers}
use twig_kv.Server.Answers.Requests.{answers_from_buffer}
use twig_kv.Server.Answers.Reach.{Client, Run, asked, every_get_answered}
use twig_kv.Server.Failures.{failed}
use twig_kv.Connection.{
  Flow, Connection, Machnet, Data, message, index_from, dst_ip_to_machine_index, receive, send,
}
use twig_kv.Connection as Connection
use twig_kv.Connection.Sources.{LeadsTo, came_from, quiet, receive-LeadsTo}

abbrev pub index_of : Packet → ℕ
index_of (State.put_response index port t) = index
index_of (State.get_response index port t value) = index
index_of (State.singleton_put_request index port key value singleton forward_count) = index
index_of (State.delete_request index port key) = index

abbrev pub port_of : Packet → ℕ
port_of (State.put_response index port t) = port
port_of (State.get_response index port t value) = port
port_of (State.singleton_put_request index port key value singleton forward_count) = port
port_of (State.delete_request index port key) = port

-- What is in the message.
abbrev pub data_of : Packet → Data
data_of (State.put_response index port t) = Connection.put_response t
data_of (State.get_response index port t value) = Connection.get_response t value
data_of (State.singleton_put_request index port key value singleton forward_count) =
    Connection.other_request
data_of (State.delete_request index port key) = Connection.other_request

-- What the thread of a server does with its connection: it receives a message, or a call of `send`
-- hands over a packet.
pub data Event : Type 0 where
  receives : Flow → List Data → Event
  sends : Packet → Event

-- The events one after the other, in the order in which they happen.
unfoldable pub deliver : Machnet → List Event → Connection → Outcome Connection
unfolding send receive
deliver net [] c = ok c
deliver net (receives rx packets ∷ es) c =
    receive quiet (message rx packets) (c, tt) >>= λ r. deliver net es r.1.0
deliver net (sends p ∷ es) c = send net (index_of p) (port_of p) (data_of p) c >>= deliver net es

abbrev pub packets_of : List Event → List Packet
packets_of [] = []
packets_of (receives rx packets ∷ es) = packets_of es
packets_of (sends p ∷ es) = p ∷ packets_of es

-- One for a response to a GET request that goes to this address and port, and otherwise zero.
abbrev pub response_to : ℕ → ℕ → Flow × Data → ℕ
response_to ip port (f, Connection.get_response t value) =
    if f.dst_ip == ip && f.dst_port == port then 1 else 0
response_to ip port (f, _) = 0

module _ (net : Machnet)
    (accepted : (sent : List (Flow × Data)) (f : Flow) → net.accepts sent f ≡ true) (ip_of : ℕ → ℕ)
    (i p : ℕ) (alone : (j : ℕ) → ip_of j ≡ ip_of i → j ≡ i) where
  response_to-packet :
      (packet : Packet) (c : Connection)
      → (1 ≤ answer_to (index_of packet) (port_of packet) packet
          → LeadsTo ip_of c (index_of packet) (port_of packet))
      → response_to (ip_of i) p (c.flows (index_of packet) (port_of packet), data_of packet)
        ≡ answer_to i p packet
  response_to-packet (State.put_response index port t) c leads = refl
  response_to-packet (State.get_response index port t value) c leads =
      let (ip, to_port) = leads (ground arith) in ground (arith, ip, to_port, alone index, ap ip_of)
  response_to-packet (State.singleton_put_request index port key value singleton forward_count) c
        leads =
      refl
  response_to-packet (State.delete_request index port key) c leads = refl

  -- Each message has a packet and comes from the address of the machine that it is taken for, and
  -- each response to a GET request is sent after a message from its client has come. `rxs` are the
  -- flows of the messages that have come before.
  abbrev pub InOrder : Connection → List Flow → List Event → Type 0
  InOrder c rxs [] = Unit {0}
  InOrder c rxs (receives rx [] ∷ es) = ⊥
  InOrder c rxs (receives rx (d ∷ ds) ∷ es) =
      (ip_of (dst_ip_to_machine_index c rx.src_ip) ≡ rx.src_ip) × InOrder c (rx ∷ rxs) es
  InOrder c rxs (sends packet ∷ es) =
      ((j q : ℕ) → 1 ≤ answer_to j q packet → 1 ≤ came_from c j q rxs) × InOrder c rxs es

  -- What holds when these messages have come since connection `c₀`.
  abbrev Heard : Connection → List Flow → Connection → Type 0
  Heard c₀ rxs c =
      (c.machines ≡ c₀.machines) × ((j q : ℕ) → 1 ≤ came_from c₀ j q rxs → LeadsTo ip_of c j q)

  machine_of :
      (c₀ c : Connection) (ip : ℕ)
      → c.machines ≡ c₀.machines
      → dst_ip_to_machine_index c ip ≡ dst_ip_to_machine_index c₀ ip
  unfolding dst_ip_to_machine_index
  machine_of c₀ c ip e = ap (λ ms. index_from 0 ms ip 0) e

  deliver_lem :
      (es : List Event) (c₀ c : Connection) (rxs : List Flow)
      → Heard c₀ rxs c
      → InOrder c₀ rxs es
      → (c' : Connection) × (deliver net es c ≡ ok c')
        × (tally (response_to (ip_of i) p) c'.sent
            ≡ tally (response_to (ip_of i) p) c.sent + tally (answer_to i p) (packets_of es))
  unfolding deliver send
  deliver_lem [] c₀ c rxs heard order = (c, refl, omega arith)
  deliver_lem (receives rx [] ∷ es) c₀ c rxs heard order = absurd order
  deliver_lem (receives rx (d ∷ ds) ∷ es) c₀ c rxs (same, leads) (known, order) =
      let machine = machine_of c₀ c rx.src_ip same in
      let (c₁, run, sent, machines, led) =
        receive-LeadsTo ip_of rx d ds c (ap ip_of machine ∙ known) in
      let (c', rest, count) =
        deliver_lem es c₀ c₁ (rx ∷ rxs)
          (
            machines ∙ same,
            λ j q h.
                led j q
                  (elim (Bool-cases
                    (dst_ip_to_machine_index c rx.src_ip == j && rx.src_port == q)) [
                      | inl here ↦ inl (ground (arith, here))
                      | inr away ↦ inr (leads j q (ground (arith, away, machine, h)))
                    ]),
          )
          order in
      (
        c',
        bind_ok _ run ∙ rest,
        count
            ∙ ap (λ t. tally (response_to (ip_of i) p) t + tally (answer_to i p) (packets_of es))
                sent,
      )
  deliver_lem (sends packet ∷ es) c₀ c rxs (same, leads) (after, order) =
      let flow = c.flows (index_of packet) (port_of packet) in
      let (c', run, count) =
        deliver_lem es c₀ (record c { sent = c.sent ++ (flow, data_of packet) ∷ [] }) rxs
          (same, leads) order in
      let one = response_to-packet packet c (λ h.
        leads (index_of packet) (port_of packet) (after (index_of packet) (port_of packet) h)) in
      (
        c',
        bind_ok _ (if_true _ (accepted c.sent flow)) ∙ run,
        omega (
          arith,
          count,
          one,
          tally-append (response_to (ip_of i) p) c.sent ((flow, data_of packet) ∷ []),
        ),
      )

  module _ {cache : BlockCacheApi} {indexes : IndexApi} {store : OneSided} (config : Settings) where
    -- The server and its connection together, for settings that do not answer twice and that say
    -- that the database is asynchronous, and for a Machnet that accepts every packet. A server that
    -- owes nobody an answer and has no failure in its queues runs until no read is left under way,
    -- and then does a round of `execute_pending_operations`. Meanwhile its connection receives
    -- messages and is handed the server's packets, one by one in the server's order: each message
    -- has a packet and is from the address of the machine that it is taken for, and each response
    -- to a GET request is handed over after some message from its client has come. If no other
    -- machine has the address of machine `i`, then all these calls return, and as many responses to
    -- GET requests go to port `p` of the address of machine `i` as GET requests of that client have
    -- been handled.
    pub deliver-every_get_answered :
        {w v v' : Server cache indexes store} {gs : List Client} (c₀ : Connection) (es : List Event)
        → answers_from_buffer config ≡ false
        → config.block_db_async ≡ true
        → failed w ≡ 0
        → ((j q : ℕ) → answers j q w ≡ 0)
        → Run config w gs v
        → v.disk_reads ≡ []
        → v.index_reads ≡ []
        → v.rdma_ops ≡ []
        → execute_pending_operations config v ≡ ok v'
        → packets_of es ≡ v'.sent
        → InOrder c₀ [] es
        → (c : Connection) × (deliver net es c₀ ≡ ok c)
          × (tally (response_to (ip_of i) p) c.sent
              ≡ tally (response_to (ip_of i) p) c₀.sent + asked i p gs)
    deliver-every_get_answered {w} {v} {v'} {gs} c₀ es once async clean nothing_owed r no_disk
          no_index no_op round same order =
        let (v₁, run, all) = every_get_answered config once async clean r no_disk no_index no_op in
        let last : v₁ ≡ v' = ok_injective (sym run ∙ round) in
        let (c, sent, count) =
          deliver_lem es c₀ c₀ [] (refl, λ j q h. absurd (omega arith)) order in
        (
          c,
          sent,
          omega (
            arith,
            count,
            all i p,
            nothing_owed i p,
            ap (λ (t : Server cache indexes store). answered i p t) last,
            ap (tally (answer_to i p)) same,
          ),
        )
