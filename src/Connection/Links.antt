-- ===== src/Connection/Links.antt =====
-- The constructor of a client connects it to all servers.
use twig_kv.Common.{
  ℕ, zero, suc, ◌+◌, ◌-◌, ◌≡◌, ◌≢◌, ◌<◌, ◌≤◌, refl, ap, sym, ◌∙◌, true, false, not, ◌&&◌, List, [],
  ◌∷◌, none, some, ok, arith, ◌==◌, get_elem?, bind_ok, if_true, if_false, Bool-cases, Option-cases,
  inl, inr, ℕ_discrete,
}
use twig_kv.Connection.{
  Flow, Machine, Connection, Machnet, set_flow, unused, new_connection, connect_loop,
  connect_retries, connect_to_remote_machine,
}
use twig_kv.Connection.Routing.{machine_at_lem}
use twig_kv.Connection.Client.{connect_machines, new_client}

-- What the documentation of Machnet says of a connection: its flow leads to the address and the port
-- that were asked for.
pub record MachnetLaws (net : Machnet) : Type 0 where
  pub leads :
      (attempt ip remote_ip remote_port : ℕ) (f : Flow)
      → net.connect attempt ip remote_ip remote_port ≡ some f
      → (f.dst_ip ≡ remote_ip) × (f.dst_port ≡ remote_port)

-- One of the attempts from `start` on succeeds.
pub record Answers (net : Machnet) (rounds start ip remote_ip remote_port : ℕ) : Type 0 where
  pub attempt : ℕ
  pub low : start ≤ attempt
  pub high : attempt < start + rounds
  pub flow : Flow
  pub made : net.connect attempt ip remote_ip remote_port ≡ some flow

-- The flow under a server and the port of this thread leads there.
abbrev pub Leads : ℕ → Connection → ℕ → Machine → Type 0
Leads t c i m =
    ((c.flows i (m.port + t)).dst_ip ≡ m.ip) × ((c.flows i (m.port + t)).dst_port ≡ m.port + t)

module _ (net : Machnet) (laws : MachnetLaws net) where
  connect_loop_lem :
      (rounds start ip remote_ip remote_port : ℕ)
      → Answers net rounds start ip remote_ip remote_port
      → (f : Flow) × (connect_loop net rounds start ip remote_ip remote_port ≡ some f)
        × (f.dst_ip ≡ remote_ip)
        × (f.dst_port ≡ remote_port)
  unfolding connect_loop
  connect_loop_lem zero start ip remote_ip remote_port a = absurd (omega (arith, a.low, a.high))
  connect_loop_lem (suc rounds) start ip remote_ip remote_port a =
      elim (Option-cases (net.connect start ip remote_ip remote_port)) [
        | inl n ↦
            let (f, run, to_ip, to_port) =
              connect_loop_lem rounds (start + 1) ip remote_ip remote_port (record {
                attempt = a.attempt;
                low = later n;
                high = omega (arith, a.high);
                flow = a.flow;
                made = a.made;
              }) in
            (f, rw (n, connect_loop) run, to_ip, to_port)
        | inr (f, s) ↦
            let (to_ip, to_port) = laws.leads start ip remote_ip remote_port f s in
            (f, rw (s, connect_loop) refl, to_ip, to_port)
      ]
    where
      later : net.connect start ip remote_ip remote_port ≡ none → start + 1 ≤ a.attempt
      later n = elim (ℕ_discrete start a.attempt) [
        | yes same ↦
            let again = ap (λ k. net.connect k ip remote_ip remote_port) same in
            absurd (ground (arith, n, again, a.made))
        | no apart ↦ omega (arith, a.low)
      ]

  -- Every other server answers one of the attempts of a connection with these machines.
  abbrev AllAnswer : Connection → Machine → Type 0
  AllAnswer c me =
      (i : ℕ) (m : Machine)
      → get_elem? c.machines i ≡ some m
      → m.server ≡ true
      → i ≢ c.machine_index
      → Answers net connect_retries 0 me.ip m.ip (m.port + c.thread_index)

  -- What has been connected when the loop has run from machine `i` on.
  record Connected (i : ℕ) (c c' : Connection) : Type 0 where
    machines : c'.machines ≡ c.machines
    machine_index : c'.machine_index ≡ c.machine_index
    thread_index : c'.thread_index ≡ c.thread_index
    sent : c'.sent ≡ c.sent
    earlier : (j p : ℕ) → j < i → c'.flows j p ≡ c.flows j p
    leads :
        (j : ℕ) (m : Machine)
        → i ≤ j
        → get_elem? c.machines j ≡ some m
        → m.server ≡ true
        → j ≢ c.machine_index
        → Leads c.thread_index c' j m

  connect_one :
      (c : Connection) (me m : Machine) (i : ℕ)
      → get_elem? c.machines c.machine_index ≡ some me
      → get_elem? c.machines i ≡ some m
      → Answers net connect_retries 0 me.ip m.ip (m.port + c.thread_index)
      → (f : Flow) × (connect_to_remote_machine net i c
          ≡ ok (set_flow i (m.port + c.thread_index) f c))
        × (f.dst_ip ≡ m.ip)
        × (f.dst_port ≡ m.port + c.thread_index)
  unfolding connect_to_remote_machine
  connect_one c me m i here there a =
      let (f, run, to_ip, to_port) =
        connect_loop_lem connect_retries 0 me.ip m.ip (m.port + c.thread_index) a in
      (
        f,
        bind_ok _ (machine_at_lem c c.machine_index me here)
            ∙ bind_ok _ (machine_at_lem c i m there)
            ∙ rw run refl,
        to_ip,
        to_port,
      )

  Connected-here :
      (c c' : Connection) (m : Machine) (i : ℕ) (f : Flow)
      → get_elem? c.machines i ≡ some m
      → f.dst_ip ≡ m.ip
      → f.dst_port ≡ m.port + c.thread_index
      → Connected (i + 1) (set_flow i (m.port + c.thread_index) f c) c'
      → Connected i c c'
  Connected-here c c' m i f there to_ip to_port k = record {
    machines = k.machines;
    machine_index = k.machine_index;
    thread_index = k.thread_index;
    sent = k.sent;
    earlier = λ j p h.
        let off : ((j == i) && (p == m.port + c.thread_index)) ≡ false = ground (arith, h) in
        k.earlier j p (omega arith) ∙ if_false _ off;
    leads = λ j m' low at server other. elim (ℕ_discrete j i) [
      | yes same ↦
          let is_m : m ≡ m' = cc in
          let on : ((i == i) && (m.port + c.thread_index == m.port + c.thread_index)) ≡ true =
            ground arith in
          let flow : c'.flows i (m.port + c.thread_index) ≡ f =
            k.earlier i (m.port + c.thread_index) (omega arith) ∙ if_true _ on in
          rw (same, ← is_m) (rw flow (to_ip, to_port))
      | no apart ↦ k.leads j m' (omega arith) at server other
    ];
  }

  Connected-skip :
      (c c' : Connection) (m : Machine) (i : ℕ)
      → get_elem? c.machines i ≡ some m
      → (not (i == c.machine_index) && m.server) ≡ false
      → Connected (i + 1) c c'
      → Connected i c c'
  Connected-skip c c' m i there skip k = record {
    machines = k.machines;
    machine_index = k.machine_index;
    thread_index = k.thread_index;
    sent = k.sent;
    earlier = λ j p h. k.earlier j p (omega arith);
    leads = λ j m' low at server other. elim (ℕ_discrete j i) [
      | yes same ↦
          let is_m : m ≡ m' = cc in
          absurd (ground (arith, skip, server, ap (λ (r : Machine). r.server) is_m, other, same))
      | no apart ↦ k.leads j m' (omega arith) at server other
    ];
  }

  connect_machines_lem :
      (ms : List Machine) (i : ℕ) (c : Connection) (me : Machine)
      → ((k : ℕ) → get_elem? ms k ≡ get_elem? c.machines (i + k))
      → get_elem? c.machines c.machine_index ≡ some me
      → AllAnswer c me
      → (c' : Connection) × (connect_machines net true ms i c ≡ ok c') × Connected i c c'
  unfolding connect_machines
  connect_machines_lem [] i c me suffix here answer = (
    c,
    refl,
    record {
      machines = refl;
      machine_index = refl;
      thread_index = refl;
      sent = refl;
      earlier = λ j p h. refl;
      leads = λ j m low at server other. absurd (past j low at);
    },
  )
    where
      past : (j : ℕ) {m : Machine} → i ≤ j → get_elem? c.machines j ≡ some m → ⊥
      past j low at =
          let same : i + (j - i) ≡ j = omega arith in
          absurd (ground (arith, suffix (j - i), ap (get_elem? c.machines) same, at))
  connect_machines_lem (m ∷ ms) i c me suffix here answer =
      let there : get_elem? c.machines i ≡ some m =
        sym (suffix 0 ∙ ap (get_elem? c.machines) (omega arith)) in
      elim (Bool-cases (not (i == c.machine_index) && m.server)) [
        | inl wanted ↦
            let (f, run, to_ip, to_port) = connect_one c me m i here there (
              answer i m there (ground (arith, wanted))
                (λ e. absurd (ground (arith, e, wanted)))) in
            let (c', rest, k) =
              connect_machines_lem ms (i + 1) (set_flow i (m.port + c.thread_index) f c) me
                (λ k. suffix (suc k) ∙ ap (get_elem? c.machines) (omega arith)) here answer in
            (
              c',
              bind_ok _ (if_true _ wanted ∙ run) ∙ rest,
              Connected-here c c' m i f there to_ip to_port k,
            )
        | inr skip ↦
            let (c', rest, k) =
              connect_machines_lem ms (i + 1) c me
                (λ k. suffix (suc k) ∙ ap (get_elem? c.machines) (omega arith)) here answer in
            (c', bind_ok _ (if_false _ skip) ∙ rest, Connected-skip c c' m i there skip k)
      ]

  -- If `machnet_attach` succeeds and each other server answers one of the attempts to connect to it, the constructor of a client
  -- returns, has sent nothing, and for every other server the flow under its index and the port of
  -- this thread, which `get` and `put` use, leads to that server's address and that port.
  pub new_client_lem :
      (machines : List Machine) (machine_index thread_index : ℕ) (me : Machine)
      → net.attach ≡ true
      → get_elem? machines machine_index ≡ some me
      → ((i : ℕ) (m : Machine)
          → get_elem? machines i ≡ some m
          → m.server ≡ true
          → i ≢ machine_index
          → Answers net connect_retries 0 me.ip m.ip (m.port + thread_index))
      → (c : Connection) × (new_client net machines machine_index thread_index ≡ ok c)
        × (c.sent ≡ [])
        × ((i : ℕ) (m : Machine)
            → get_elem? machines i ≡ some m
            → m.server ≡ true
            → i ≢ machine_index
            → Leads thread_index c i m)
  unfolding new_client new_connection
  new_client_lem machines machine_index thread_index me attached here answer =
      let (c, run, k) =
        connect_machines_lem machines 0 (unused machines machine_index thread_index) me
          (λ k. ap (get_elem? machines) (omega arith)) here answer in
      (
        c,
        bind_ok _ (
              bind_ok _
                (machine_at_lem (unused machines machine_index thread_index) machine_index me here)
              ∙ if_true _ attached)
            ∙ run,
        k.sent,
        λ i m. k.leads i m (omega arith),
      )
