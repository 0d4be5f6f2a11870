-- ===== src/Connection/Replies.antt =====
-- The calls of `get` take the messages that come in one by one, whatever they are about.
use twig_kv.Common.{
  ℕ, ◌+◌, ◌-◌, ◌≡◌, ◌≤◌, refl, ap, sym, ◌∙◌, Bool, true, false, List, [], ◌∷◌, ◌++◌, some, ok,
  arith, append_assoc, append-nil, ◌==◌, ltb, le→ltb, if◌then◌else◌, get_elem?, bind_ok, if_true,
  if_false, Bool-cases, inl, inr, length, map, tally,
}
use twig_kv.Config.{Configuration}
use twig_kv.Workload.Generate.{Operation}
use twig_kv.Server.State.{ResponseType}
use twig_kv.Connection.{
  Flow, Machine, Connection, Machnet, Data, get_request, get_response, message, Poll, send, receive,
  receive_packets, poll_receive, set_flow, reverse, dst_ip_to_machine_index,
}
use twig_kv.Connection.Routing.{machine_at_lem}
use twig_kv.Connection.Client.{get, until_nul, take_value, is_value, Tallied, execute_operations}

-- A message with the response to a GET request, from anyone.
pub record Reply : Type 0 where
  pub flow : Flow
  pub response_type : ResponseType
  pub value : List ℕ

abbrev pub arrives : Reply → Poll
arrives r = record {
  arrival = message r.flow (get_response r.response_type r.value ∷ []);
  stop = false;
}

-- The packets that have been sent.
abbrev pub packets : Connection → List Data
packets c = map (λ x. x.1) c.sent

-- The operations up to the one after which the time is over, from number `n` on.
unfoldable pub executed : (ℕ → Bool) → ℕ → List Operation → List Operation
executed over n [] = []
executed over n (o ∷ os) = let rest = executed over (n + 1) os in o ∷ (if over n then [] else rest)

abbrev pub wrong : ℕ → Reply → ℕ
wrong value_size r = if is_value value_size (until_nul r.value) then 0 else 1

map-append {ℓ κ} :
    {A : Type ℓ} {B : Type κ} (f : A → B) (xs ys : List A) → map f (xs ++ ys) ≡ map f xs ++ map f ys
map-append f [] ys = refl
map-append f (x ∷ xs) ys = ap (◌∷◌ (f x)) (map-append f xs ys)

length_zero {ℓ} : {A : Type ℓ} (xs : List A) → length xs ≡ 0 → xs ≡ []
length_zero [] h = refl
length_zero (x ∷ xs) h = absurd (omega arith)

module _ (net : Machnet)
    (accepted : (sent : List (Flow × Data)) (f : Flow) → net.accepts sent f ≡ true) where
  get_lem :
      (index thread_index key : ℕ) (r : Reply) (rest : List Poll) (c : Connection) (m : Machine)
      → get_elem? c.machines index ≡ some m
      → (c' : Connection) × (get net index thread_index key (arrives r ∷ rest) c
          ≡ ok (some ((c', until_nul r.value), rest)))
        × (c'.machines ≡ c.machines)
        × (packets c' ≡ packets c ++ get_request key ∷ [])
  unfolding get take_value send poll_receive receive receive_packets
  get_lem index thread_index key r rest c m at =
      let flow = c.flows index (m.port + thread_index) in
      let c₁ : Connection = record c { sent = c.sent ++ (flow, get_request key) ∷ [] } in
      (
        set_flow (dst_ip_to_machine_index c₁ r.flow.src_ip) r.flow.src_port (reverse r.flow) c₁,
        bind_ok _ (machine_at_lem c index m at) ∙ bind_ok _ (if_true _ (accepted c.sent flow)),
        refl,
        map-append (λ (x : Flow × Data). x.1) c.sent ((flow, get_request key) ∷ []),
      )

  -- The node of each operation is a machine.
  abbrev pub Addressed : Configuration → ℕ → List Machine → List Operation → Type 0
  Addressed ops_config start_index machines [] = Unit {0}
  Addressed ops_config start_index machines (o ∷ os) =
      (o.node ≤ ops_config.num_nodes)
      × (1 ≤ o.node + start_index)
      × ((m : Machine) × (get_elem? machines (o.node + start_index - 1) ≡ some m))
      × Addressed ops_config start_index machines os

  one_operation :
      (ops_config : Configuration) (start_index thread_index : ℕ) (over : ℕ → Bool) (o : Operation)
      (os : List Operation) (polls left : List Poll) (t : Tallied) (c' : Connection) (v : List ℕ)
      → o.node ≤ ops_config.num_nodes
      → 1 ≤ o.node + start_index
      → get net (o.node + start_index - 1) thread_index o.key polls t.connection
        ≡ ok (some ((c', v), left))
      → let t' : Tallied = record {
        connection = c';
        total_ops_executed = t.total_ops_executed + 1;
        wrong_value = t.wrong_value + (if is_value ops_config.value_size v then 0 else 1);
      } in
        execute_operations net ops_config start_index thread_index over (o ∷ os) polls t ≡ (
          if over t.total_ops_executed
          then ok (some (t', left))
          else execute_operations net ops_config start_index thread_index over os left t')
  unfolding execute_operations
  one_operation ops_config start_index thread_index over o os polls left t c' v valid low run =
      let high : ltb ops_config.num_nodes o.node ≡ false =
        le→ltb ops_config.num_nodes o.node valid in
      let low' : (o.node + start_index == 0) ≡ false = ground arith in rw (high, low', run) refl

  -- A client whose sends Machnet accepts, whose operations go to machines that there are, and to which
  -- one response comes in for each operation that it executes: the pass over the operations
  -- returns, has sent one GET request for each operation, in their order, up to the one after
  -- which the time is over, and leaves the later messages. It takes the responses in the order in
  -- which they come, whatever key they are for, and counts as wrong those whose value, up to
  -- its first NUL, is not VALUE_SIZE times the letter A.
  pub execute_operations_lem :
      (ops_config : Configuration) (start_index thread_index : ℕ) (over : ℕ → Bool)
      (os : List Operation) (rs : List Reply) (rest : List Poll) (t : Tallied)
      → Addressed ops_config start_index t.connection.machines os
      → length rs ≡ length (executed over t.total_ops_executed os)
      → (t' : Tallied) × (execute_operations net ops_config start_index thread_index over os
            (map arrives rs ++ rest)
            t
          ≡ ok (some (t', rest)))
        × (t'.total_ops_executed ≡ t.total_ops_executed + length rs)
        × (t'.wrong_value ≡ t.wrong_value + tally (wrong ops_config.value_size) rs)
        × (packets t'.connection
            ≡ packets t.connection
              ++ map (λ o. get_request o.key) (executed over t.total_ops_executed os))
  unfolding execute_operations executed
  execute_operations_lem ops_config start_index thread_index over [] [] rest t a l =
      (t, refl, omega arith, omega arith, sym (append-nil _))
  execute_operations_lem ops_config start_index thread_index over [] (r ∷ rs) rest t a l =
      absurd (omega arith)
  execute_operations_lem ops_config start_index thread_index over (o ∷ os) [] rest t a l =
      absurd (omega arith)
  execute_operations_lem ops_config start_index thread_index over (o ∷ os) (r ∷ rs) rest t
        (valid, low, (m, at), more) l =
      let left = map arrives rs ++ rest in
      let (c', run, same, asked) =
        get_lem (o.node + start_index - 1) thread_index o.key r left t.connection m at in
      let t₁ : Tallied = record {
        connection = c';
        total_ops_executed = t.total_ops_executed + 1;
        wrong_value = t.wrong_value + wrong ops_config.value_size r;
      } in
      let first =
        one_operation ops_config start_index thread_index over o os (arrives r ∷ left) left t c'
          (until_nul r.value) valid low run in
      elim (Bool-cases (over t.total_ops_executed)) [
        | inl stop ↦
            let none_left : rs ≡ [] = length_zero rs (ground (arith, l, stop)) in
            (
              t₁,
              first ∙ if_true _ stop ∙ ap (λ qs. ok (some (t₁, map arrives qs ++ rest))) none_left,
              omega (arith, ap length none_left),
              omega (arith, ap (tally (wrong ops_config.value_size)) none_left),
              rw stop asked,
            )
        | inr go ↦
            let (t', run', total, wrongs, asked') =
              execute_operations_lem ops_config start_index thread_index over os rs rest t₁
                (rw same more) (ground (arith, l, go)) in
            (
              t',
              first ∙ if_false _ go ∙ run',
              omega (arith, total),
              omega (arith, wrongs),
              rw go (
                  asked'
                  ∙ ap
                      (λ ps.
                        ps
                        ++ map (λ o. get_request o.key)
                            (executed over (t.total_ops_executed + 1) os))
                      asked
                  ∙ append_assoc (packets t.connection) _ _),
            )
      ]
