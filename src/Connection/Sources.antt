-- ===== src/Connection/Sources.antt =====
-- A message from a machine that is known makes the flow under its source lead back there.
use twig_kv.Common.{
  ℕ, ◌≡◌, ◌≤◌, refl, ap, sym, ◌∙◌, true, ◌&&◌, List, [], ◌∷◌, Outcome, ok, bind_ok, ◌⊎◌, arith,
  ◌==◌, if◌then◌else◌, tally, Bool-cases, inl, inr,
}
use twig_kv.Connection.{
  Flow, Connection, Data, message, receive, receive_packets, set_flow, reverse,
  dst_ip_to_machine_index,
}
use twig_kv.Connection.Routing.{KeepsFlows, receive_message, sets}

-- The flow under a machine and a port leads to the machine's address and that port.
abbrev pub LeadsTo : (ℕ → ℕ) → Connection → ℕ → ℕ → Type 0
LeadsTo ip_of c index port =
    ((c.flows index port).dst_ip ≡ ip_of index) × ((c.flows index port).dst_port ≡ port)

-- The flows among these that come from a port of a machine.
abbrev pub came_from : Connection → ℕ → ℕ → List Flow → ℕ
came_from c j q rxs =
    tally
      (λ (rx : Flow). if dst_ip_to_machine_index c rx.src_ip == j && rx.src_port == q then 1 else 0)
      rxs

-- What the connection does with a message by itself, whatever its handler does.
abbrev pub quiet : ℕ → ℕ → Data → Connection × Unit {0} → Outcome (Connection × Unit {0})
quiet index port packet s = ok s

quiet-KeepsFlows : KeepsFlows quiet
quiet-KeepsFlows index port packet s s' e = (cc, λ i p. cc)

quiet_packets :
    (rx : Flow) (packets : List Data) (c : Connection)
    → (c' : Connection) × (receive_packets quiet rx packets (c, tt) ≡ ok (c', tt))
      × (c'.sent ≡ c.sent)
unfolding receive_packets
quiet_packets rx [] c = (c, refl, refl)
quiet_packets rx (d ∷ ds) c =
    quiet_packets rx ds (set_flow (dst_ip_to_machine_index c rx.src_ip) rx.src_port (reverse rx) c)

-- After a message with some packet from the address of the machine that it is taken for, the flow
-- under its machine and port leads there, and the others lead where they did.
pub receive-LeadsTo :
    (ip_of : ℕ → ℕ) (rx : Flow) (d : Data) (ds : List Data) (c : Connection)
    → ip_of (dst_ip_to_machine_index c rx.src_ip) ≡ rx.src_ip
    → (c' : Connection) × (receive quiet (message rx (d ∷ ds)) (c, tt) ≡ ok (true, (c', tt)))
      × (c'.sent ≡ c.sent)
      × (c'.machines ≡ c.machines)
      × ((j q : ℕ) → (1 ≤ came_from c j q (rx ∷ [])) ⊎ LeadsTo ip_of c j q → LeadsTo ip_of c' j q)
unfolding receive
receive-LeadsTo ip_of rx d ds c known =
    let (c', packets, same) = quiet_packets rx (d ∷ ds) c in
    let run : receive quiet (message rx (d ∷ ds)) (c, tt) ≡ ok (true, (c', tt)) =
      bind_ok _ packets in
    let r = receive_message quiet rx (d ∷ ds) (c, tt) (c', tt) true quiet-KeepsFlows run in
    (
      c',
      run,
      same,
      r.machines,
      λ j q h. elim (Bool-cases (sets quiet rx c j q)) [
        | inl on ↦
            let back = r.back j q on (inl refl) in
            let machine : j ≡ dst_ip_to_machine_index c rx.src_ip = ground arith in
            let port : q ≡ rx.src_port = ground arith in
            (
              ap (λ (f : Flow). f.dst_ip) back ∙ sym known ∙ ap ip_of (sym machine),
              ap (λ (f : Flow). f.dst_port) back ∙ sym port,
            )
        | inr off ↦ elim h [
          | inl came ↦ absurd (ground (arith, off, came))
          | inr l ↦ rw (r.kept j q off) l
        ]
      ],
    )
