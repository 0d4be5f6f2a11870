-- ===== src/Connection/Routing.antt =====
-- Which flow a packet goes over.
use twig_kv.Common.{
  ℕ, ◌≡◌, ◌⊎◌, refl, ap, sym, ◌∙◌, Bool, true, false, ◌&&◌, List, [], ◌∷◌, ◌++◌, some, Outcome, ok,
  ◌>>=◌, ends, returns, panics, breaks, ok_injective, arith, ◌==◌, if◌then◌else◌, get_elem?, subst,
  if_true, if_false, inl, inr,
}
use twig_kv.Connection.{
  Flow, Machine, Connection, Machnet, Data, machine_at, set_flow, reverse, index_from,
  dst_ip_to_machine_index, receive_packets, receive, message, send,
}

pub machine_at_lem :
    (c : Connection) (i : ℕ) (m : Machine) → get_elem? c.machines i ≡ some m → machine_at c i ≡ ok m
machine_at_lem c i m e = rw (e, machine_at) refl

module _ {S : Type 0} (handler : ℕ → ℕ → Data → Connection × S → Outcome (Connection × S)) where
  -- The handler leaves the machines and the flows alone, as the calls of `send` do.
  abbrev pub KeepsFlows : Type 0
  KeepsFlows =
      (index port : ℕ) (packet : Data) (s s' : Connection × S)
      → handler index port packet s ≡ ok s'
      → (s'.0.machines ≡ s.0.machines) × ((i p : ℕ) → s'.0.flows i p ≡ s.0.flows i p)

  -- Whether a message on this flow sets the flow under this machine and port.
  abbrev pub sets : Flow → Connection → ℕ → ℕ → Bool
  sets rx c i p = (i == dst_ip_to_machine_index c rx.src_ip) && (p == rx.src_port)

  pub same_machine :
      (c c' : Connection) (ip : ℕ)
      → c'.machines ≡ c.machines
      → dst_ip_to_machine_index c' ip ≡ dst_ip_to_machine_index c ip
  unfolding dst_ip_to_machine_index
  same_machine c c' ip e = ap (λ ms. index_from 0 ms ip 0) e

  -- What a message does to the flows.
  pub record Received (rx : Flow) (some_packet : Bool) (c c' : Connection) : Type 0 where
    pub machines : c'.machines ≡ c.machines
    pub kept : (i p : ℕ) → sets rx c i p ≡ false → c'.flows i p ≡ c.flows i p
    pub back :
        (i p : ℕ)
        → sets rx c i p ≡ true
        → (some_packet ≡ true) ⊎ (c.flows i p ≡ reverse rx)
        → c'.flows i p ≡ reverse rx

  Received-step :
      (rx : Flow) (b : Bool) (c c₁ c' : Connection)
      → c₁.machines ≡ c.machines
      → ((i p : ℕ) → c₁.flows i p ≡ (if sets rx c i p then reverse rx else c.flows i p))
      → Received rx b c₁ c'
      → Received rx true c c'
  Received-step rx b c c₁ c' m f r =
      let same : (i p : ℕ) → sets rx c₁ i p ≡ sets rx c i p =
        λ i p. ap (λ n. (i == n) && (p == rx.src_port)) (same_machine c c₁ rx.src_ip m) in
      record {
        machines = r.machines ∙ m;
        kept = λ i p h. r.kept i p (same i p ∙ h) ∙ f i p ∙ if_false _ h;
        back = λ i p h _. r.back i p (same i p ∙ h) (inr (f i p ∙ if_true _ h));
      }

  abbrev pub not_empty : List Data → Bool
  not_empty [] = false
  not_empty (d ∷ ds) = true

  receive_packets_lem :
      (rx : Flow) (packets : List Data) (s s' : Connection × S)
      → KeepsFlows
      → receive_packets handler rx packets s ≡ ok s'
      → Received rx (not_empty packets) s.0 s'.0
  unfolding receive_packets
  receive_packets_lem rx [] s s' keep e =
      subst (λ (t : Connection × S). Received rx false s.0 t.0) (ok_injective e)
        (record {
          machines = refl;
          kept = λ i p h. refl;
          back = λ i p h. λ x. elim x [ inl f ↦ absurd cc | inr b ↦ b ];
        })
  receive_packets_lem rx (d ∷ ds) (c, x) s' keep e =
      let index = dst_ip_to_machine_index c rx.src_ip in
      let s₁ : Connection × S = (set_flow index rx.src_port (reverse rx) c, x) in
      elim (ends (handler index rx.src_port d s₁)) [
        | returns s₂ q ↦
            let (m₁, f₁) = keep index rx.src_port d s₁ s₂ q in
            Received-step rx (not_empty ds) c s₂.0 s'.0 m₁ f₁
              (receive_packets_lem rx ds s₂ s' keep (rw q at e))
        | panics q ↦ absurd (ground arith)
        | breaks q ↦ absurd (ground arith)
      ]

  -- The messages that come in, one after the other.
  unfoldable pub receive_all : List (Flow × List Data) → Connection × S → Outcome (Connection × S)
  receive_all [] s = ok s
  receive_all ((rx, packets) ∷ ms) s =
      receive handler (message rx packets) s >>= λ r. receive_all ms r.1

  -- None of the messages sets the flow under this machine and port.
  abbrev pub NoneSets : List (Flow × List Data) → Connection → ℕ → ℕ → Type 0
  NoneSets [] c i p = Unit {0}
  NoneSets ((rx, packets) ∷ ms) c i p = (sets rx c i p ≡ false) × NoneSets ms c i p

  NoneSets-same :
      (ms : List (Flow × List Data)) (c c' : Connection) (i p : ℕ)
      → c'.machines ≡ c.machines
      → NoneSets ms c i p
      → NoneSets ms c' i p
  NoneSets-same [] c c' i p m n = tt
  NoneSets-same ((rx, packets) ∷ ms) c c' i p m (h, n) = (
    ap (λ k. (i == k) && (p == rx.src_port)) (same_machine c c' rx.src_ip m) ∙ h,
    NoneSets-same ms c c' i p m n,
  )

  pub receive_message :
      (rx : Flow) (packets : List Data) (s s' : Connection × S) (b : Bool)
      → KeepsFlows
      → receive handler (message rx packets) s ≡ ok (b, s')
      → Received rx (not_empty packets) s.0 s'.0
  unfolding receive
  receive_message rx packets s s' b keep e = elim (ends (receive_packets handler rx packets s)) [
    | returns t q ↦
        receive_packets_lem rx packets s s' keep
          (q ∙ ap ok (ap (λ r. r.1) (ok_injective (rw q at e))))
    | panics q ↦ absurd (ground arith)
    | breaks q ↦ absurd (ground arith)
  ]

  later_messages :
      (ms : List (Flow × List Data)) (s s' : Connection × S) (i p : ℕ)
      → KeepsFlows
      → receive_all ms s ≡ ok s'
      → NoneSets ms s.0 i p
      → s'.0.flows i p ≡ s.0.flows i p
  unfolding receive_all
  later_messages [] s s' i p keep e n = ap (λ t. t.0.flows i p) (sym (ok_injective e))
  later_messages ((rx, packets) ∷ ms) s s' i p keep e (h, n) =
      elim (ends (receive handler (message rx packets) s)) [
        | returns (b, t) q ↦
            let r = receive_message rx packets s t b keep q in
            later_messages ms t s' i p keep (rw q at e) (NoneSets-same ms s.0 t.0 i p r.machines n)
            ∙ r.kept i p h
        | panics q ↦ absurd (ground arith)
        | breaks q ↦ absurd (ground arith)
      ]

  -- A handler that leaves the flows alone gets a message with some packet on the flow `rx`, and then
  -- messages from other machines or ports. If all of that returns, a packet that is then sent to the
  -- machine and the port that the handler was given for the first message goes over the reverse of
  -- `rx`: to the address and the port that the message came from.
  pub send-receive_all :
      (net : Machnet) (rx : Flow) (d : Data) (ds : List Data) (later : List (Flow × List Data))
      (s s' : Connection × S) (answer : Data)
      → KeepsFlows
      → receive_all ((rx, d ∷ ds) ∷ later) s ≡ ok s'
      → NoneSets later s.0 (dst_ip_to_machine_index s.0 rx.src_ip) rx.src_port
      → net.accepts s'.0.sent (reverse rx) ≡ true
      → send net (dst_ip_to_machine_index s.0 rx.src_ip) rx.src_port answer s'.0
        ≡ ok (record s'.0 { sent = s'.0.sent ++ (reverse rx, answer) ∷ [] })
  unfolding receive_all send
  send-receive_all net rx d ds later s s' answer keep e n accepted =
      let index = dst_ip_to_machine_index s.0 rx.src_ip in
      elim (ends (receive handler (message rx (d ∷ ds)) s)) [
        | returns (b, t) q ↦
            let r = receive_message rx (d ∷ ds) s t b keep q in
            let back : t.0.flows index rx.src_port ≡ reverse rx =
              r.back index rx.src_port (ground arith) (inl refl) in
            let flow : s'.0.flows index rx.src_port ≡ reverse rx =
              later_messages later t s' index rx.src_port keep (rw q at e)
                (NoneSets-same later s.0 t.0 index rx.src_port r.machines n)
              ∙ back in
            rw (flow, accepted) refl
        | panics q ↦ absurd (ground arith)
        | breaks q ↦ absurd (ground arith)
      ]
