-- ===== src/Workload/Generate/Picks.antt =====
-- What the generated operations are.
use twig_kv.Common.{
  ℕ, zero, suc, ◌+◌, ◌*◌, ◌%◌, ◌<◌, ◌≤◌, ◌≡◌, refl, ap, List, [], ◌∷◌, some, Outcome, ok, arith,
  length, get_elem?, get_elem?-lt,
}
use twig_kv.Config.{Configuration}
use twig_kv.Workload.Generate.{Operation, nth, remainder, generate, generate_random_operation_set}
use twig_kv.Workload.Generate.Order.{occurs}

-- The operation of each round has the property.
abbrev pub AllFrom : (ℕ → Operation → Type 0) → ℕ → List Operation → Type 0
AllFrom P i [] = Unit {0}
AllFrom P i (o ∷ os) = P i o × AllFrom P (i + 1) os

pub generate-AllFrom :
    (P : ℕ → Operation → Type 0) (round : ℕ → Outcome Operation)
    → ((i : ℕ) → (o : Operation) × (round i ≡ ok o) × P i o)
    → (rounds i : ℕ)
    → (os : List Operation) × (generate round rounds i ≡ ok os)
      × (length os ≡ rounds)
      × AllFrom P i os
unfolding generate
generate-AllFrom P round h zero i = ([], refl, refl, tt)
generate-AllFrom P round h (suc rounds) i =
    let (o, e, p) = h i in
    let (os, es, l, ps) = generate-AllFrom P round h rounds (i + 1) in
    (o ∷ os, rw (e, es) refl, ap suc l, (p, ps))

-- A key of the data set, sent to a node that exists.
abbrev pub IsValid : List ℕ → Configuration → ℕ → Operation → Type 0
IsValid keys c i o = (1 ≤ occurs o.key keys) × (1 ≤ o.node) × (o.node ≤ c.num_nodes)

pub get_elem?-occurs :
    (keys : List ℕ) (i key : ℕ) → get_elem? keys i ≡ some key → 1 ≤ occurs key keys
get_elem?-occurs [] i key h = absurd cc
get_elem?-occurs (k ∷ ks) zero key h = ground arith
get_elem?-occurs (k ∷ ks) (suc i) key h = omega (arith, get_elem?-occurs ks i key h)

pub remainder_lem : (a b : ℕ) → 0 < b → (remainder a b ≡ ok (a % b)) × (a % b < b)
remainder_lem a b h = (ground arith, grind arith)

pub nth_lem :
    (keys : List ℕ) (i : ℕ) → i < length keys → (k : ℕ) × (nth keys i ≡ ok k) × (1 ≤ occurs k keys)
nth_lem keys i h =
    let (k, e) = get_elem?-lt keys i h in (k, ground arith, get_elem?-occurs keys i k e)

-- With at least one key and one node the generator returns as many operations as are asked for, each
-- for a key of the data set and a node that exists, whatever the random numbers are.
pub generate_random_operation_set_lem :
    (keys : List ℕ) (c : Configuration) (rand : ℕ → ℕ)
    → 0 < length keys
    → 0 < c.num_nodes
    → (os : List Operation) × (generate_random_operation_set keys c rand ≡ ok os)
      × (length os ≡ c.total_operations)
      × AllFrom (IsValid keys c) 0 os
unfolding generate_random_operation_set
generate_random_operation_set_lem keys c rand some_key some_node =
    generate-AllFrom (IsValid keys c) _
      (λ i.
        let (e₁, lt) = remainder_lem (rand (2 * i)) (length keys) some_key in
        let (k, e₂, o) = nth_lem keys (rand (2 * i) % length keys) lt in
        let (e₃, lt₃) = remainder_lem (rand (2 * i + 1)) c.num_nodes some_node in
        (
          record { key = k; node = rand (2 * i + 1) % c.num_nodes + 1 },
          rw (e₁, e₂, e₃) refl,
          (o, omega arith, omega (arith, lt₃)),
        ))
      c.total_operations 0
