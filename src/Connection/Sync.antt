-- ===== src/Connection/Sync.antt =====
-- When `sync_with_other_clients` returns.
use twig_kv.Common.{
  ℕ, ◌+◌, ◌≡◌, ◌≤◌, refl, ap, sym, ◌∙◌, Bool, true, false, not, ◌&&◌, List, [], ◌∷◌, ◌++◌, some, ok,
  panic, arith, ◌==◌, if◌then◌else◌, bind_ok, Bool-cases, inl, inr, length, map,
}
use twig_kv.Placement.{to_int}
use twig_kv.Server.State.{response_ok}
use twig_kv.Connection.{
  Flow, Connection, Machnet, client_sync_request, message, Poll, receive, receive_packets,
  poll_receive, set_flow, reverse, dst_ip_to_machine_index,
}
use twig_kv.Connection.Client.{
  acked, count_others, send_requests, wait_requests, sync_with_other_clients,
}

-- A sync request from a client, on some flow.
pub record Request : Type 0 where
  pub flow : Flow
  pub index : ℕ

abbrev pub arrives : Request → Poll
arrives r = record {
  arrival = message r.flow (client_sync_request response_ok r.index ∷ []);
  stop = false;
}

-- The keys of `request_acks` after requests.
abbrev pub acks_after : List Request → List ℕ → List ℕ
acks_after [] acks = acks
acks_after (r ∷ rs) acks =
    acks_after rs (if acked (to_int r.index) acks then acks else to_int r.index ∷ acks)

-- No key of an index comes twice, nor is among those that are there.
pub fresh : List Request → List ℕ → Bool
unfolding acked
fresh [] acks = true
fresh (r ∷ rs) acks = not (acked (to_int r.index) acks) && fresh rs (to_int r.index ∷ acks)

length-acks_after :
    (rs : List Request) (acks : List ℕ) → length (acks_after rs acks) ≤ length acks + length rs
length-acks_after [] acks = omega arith
length-acks_after (r ∷ rs) acks = elim (Bool-cases (acked (to_int r.index) acks)) [
  | inl e ↦ rw e (omega (arith, length-acks_after rs acks))
  | inr e ↦ rw e (omega (arith, length-acks_after rs (to_int r.index ∷ acks)))
]

-- All requests are counted exactly if none comes twice.
acks_after-fresh :
    (rs : List Request) (acks : List ℕ)
    → (length (acks_after rs acks) == length acks + length rs) ≡ fresh rs acks
unfolding fresh
acks_after-fresh [] acks = ground arith
acks_after-fresh (r ∷ rs) acks = elim (Bool-cases (acked (to_int r.index) acks)) [
  | inl e ↦ rw e (ground (arith, length-acks_after rs acks))
  | inr e ↦ rw e (ground (arith, acks_after-fresh rs (to_int r.index ∷ acks)))
]

set_flow_for : Request → Connection → Connection
set_flow_for r c =
    set_flow (dst_ip_to_machine_index c r.flow.src_ip) r.flow.src_port (reverse r.flow) c

wait_requests_lem :
    (rs : List Request) (rest : List Poll) (c : Connection) (acks : List ℕ)
    → (c' : Connection) × (wait_requests (length rs) (map arrives rs ++ rest) (c, acks)
        ≡ ok (some ((c', acks_after rs acks), rest)))
unfolding wait_requests poll_receive receive receive_packets set_flow_for
wait_requests_lem [] rest c acks = (c, refl)
wait_requests_lem (r ∷ rs) rest c acks =
    wait_requests_lem rs rest (set_flow_for r c)
      (if acked (to_int r.index) acks then acks else to_int r.index ∷ acks)

-- A client whose requests to the other clients are sent, and whose next messages are as many sync
-- requests as there are other clients: `sync_with_other_clients` returns if no two of their indexes
-- have the same low 32 bits, in whatever order they come, and leaves the later messages; if two of
-- them do, it stops in `panic`.
pub sync_with_other_clients_lem :
    (net : Machnet) (rs : List Request) (rest : List Poll) (c c₁ : Connection)
    → length rs ≡ count_others c.machines 0 c.machine_index
    → send_requests net c.machines 0 c ≡ ok c₁
    → (c' : Connection) × (sync_with_other_clients net (map arrives rs ++ rest) c
        ≡ (if fresh rs [] then ok (some (c', rest)) else panic))
unfolding sync_with_other_clients
sync_with_other_clients_lem net rs rest c c₁ total sent =
    let (c', run) = wait_requests_lem rs rest c₁ [] in
    let test = acks_after-fresh rs [] in
    (
      c',
      bind_ok _ sent
          ∙ bind_ok _
              (ap (λ n. wait_requests n (map arrives rs ++ rest) (c₁, [])) (sym total) ∙ run)
          ∙ ap (λ b. if b then ok (some (c', rest)) else panic)
              (ap (λ n. length (acks_after rs []) == n) (omega (arith, total)) ∙ test),
    )
