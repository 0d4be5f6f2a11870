-- ===== src/Workload/Generate.antt =====
-- The generators of operations of src/operations.cpp. A key is given by its number. `rand` is the
-- sequence of the numbers that the calls of `rand()` return. The counts that come from the `double`
-- fields, `numHotKeys` and `hotKeyOps`, and the shuffled `keyOrder` are arguments.
pub mod Order
pub mod Picks
pub mod Hot
use twig_kv.Common.{
  ℕ, zero, suc, ◌+◌, ◌-◌, ◌*◌, ◌/◌, ◌%◌, ◌||◌, List, [], ◌∷◌, ◌++◌, none, some, Outcome, ok,
  undefined, ◌>>=◌, ltb, leb, ◌==◌, if◌then◌else◌, stoi, ◌^◌, length, get_elem?, slice,
}
use twig_kv.Config.{Configuration}

-- `Operation` without its `op`, which Database adds for each distribution.
pub record Operation : Type 0 where
  pub key : ℕ
  pub node : ℕ

-- `keys[i]`, and `%` with a divisor that may be zero.
abbrev pub nth : List ℕ → ℕ → Outcome ℕ
nth keys i = elim (get_elem? keys i) [ none ↦ undefined | some k ↦ ok k ]

abbrev pub remainder : ℕ → ℕ → Outcome ℕ
remainder a b = if b == 0 then undefined else ok (a % b)

-- The loop of every generator, from round `i` on.
unfoldable pub generate : (ℕ → Outcome Operation) → ℕ → ℕ → Outcome (List Operation)
generate round zero i = ok []
generate round (suc rounds) i = do o ← round i; rest ← generate round rounds (i + 1); ok (o ∷ rest)

-- Nodes are numbered from 1.
abbrev pub random_node : Configuration → ℕ → Outcome ℕ
random_node c r = remainder r c.num_nodes >>= λ n. ok (n + 1)

-- `floor(key / keysPerNode) % numNodes + 1`
abbrev pub partition_node : List ℕ → Configuration → ℕ → Outcome ℕ
partition_node keys c key =
    if c.num_nodes == 0
    then undefined
    else stoi key >>= λ k.
        if length keys / c.num_nodes == 0
        then undefined
        else ok (k / (length keys / c.num_nodes) % c.num_nodes + 1)

-- The index that a round draws: among the hot ones, or among the others.
abbrev pub draw_index : ℕ → ℕ → ℕ → ℕ → ℕ → Outcome ℕ
draw_index num_keys num_hot_keys hot_key_ops i r =
    if ltb i hot_key_ops
    then remainder r num_hot_keys
    else remainder r (num_keys - num_hot_keys) >>= λ x. ok (num_hot_keys + x)

unfoldable pub generate_random_operation_set :
    List ℕ → Configuration → (ℕ → ℕ) → Outcome (List Operation)
unfolding generate
generate_random_operation_set keys c rand =
    generate
      (λ i. do
        x ← remainder (rand (2 * i)) (length keys)
        key ← nth keys x
        node ← random_node c (rand (2 * i + 1))
        ok (record { key = key; node = node }))
      c.total_operations 0

unfoldable pub generate_partitioned_operation_set :
    List ℕ → Configuration → Outcome (List Operation)
unfolding generate
generate_partitioned_operation_set keys c =
    generate
      (λ i. do
        x ← remainder i (length keys)
        key ← nth keys x
        node ← partition_node keys c key
        ok (record { key = key; node = node }))
      c.total_operations 0

unfoldable pub generate_zipfian_operation_set :
    List ℕ → List ℕ → Configuration → ℕ → ℕ → (ℕ → ℕ) → Outcome (List Operation)
unfolding generate
generate_zipfian_operation_set keys key_order c num_hot_keys hot_key_ops rand =
    generate
      (λ i. do
        x ← draw_index (length keys) num_hot_keys hot_key_ops i (rand (2 * i))
        y ← nth key_order x
        key ← nth keys y
        node ← random_node c (rand (2 * i + 1))
        ok (record { key = key; node = node }))
      c.total_operations 0

unfoldable pub generate_zipfian_partitioned_operation_set :
    List ℕ → List ℕ → Configuration → ℕ → ℕ → (ℕ → ℕ) → Outcome (List Operation)
unfolding generate
generate_zipfian_partitioned_operation_set keys key_order c num_hot_keys hot_key_ops rand =
    generate
      (λ i. do
        x ← draw_index (length keys) num_hot_keys hot_key_ops i (rand i)
        y ← nth key_order x
        key ← nth keys y
        node ← partition_node keys c key
        ok (record { key = key; node = node }))
      c.total_operations 0

-- The keys outside the middle part, from index `i` on.
unfoldable pub outside : ℕ → ℕ → List ℕ → ℕ → List ℕ
outside start end [] i = []
outside start end (k ∷ ks) i =
    let rest = outside start end ks (i + 1) in if ltb i start || leb end i then k ∷ rest else rest

-- `2 * numKeys` is an `int`: where it overflows the behaviour is undefined.
abbrev pub with_thirds {ℓ} : {A : Type ℓ} → List ℕ → Outcome A → Outcome A
with_thirds keys rest = if ltb (2 * length keys) (2 ^ 31) then rest else undefined

-- The middle third of the keys, if `2 * numKeys` does not overflow.
abbrev pub new_key_set : List ℕ → List ℕ
new_key_set keys = slice (length keys / 3) (2 * length keys / 3) keys

-- `keyOrder` of the single-node distributions: the middle third of the keys, then the others.
unfoldable pub hot_key_order : List ℕ → List ℕ
unfolding outside
hot_key_order keys = new_key_set keys ++ outside (length keys / 3) (2 * length keys / 3) keys 0

-- One operation of these distributions, with the node given.
abbrev pub hot_operation : List ℕ → ℕ → ℕ → ℕ → ℕ → Outcome ℕ → Outcome Operation
hot_operation keys num_hot_keys hot_key_ops i r node = do
  x ← draw_index (length keys) num_hot_keys hot_key_ops i r
  key ← nth (hot_key_order keys) x
  n ← node
  ok (record { key = key; node = n })

unfoldable pub single_node_hot_set_data :
    List ℕ → Configuration → ℕ → ℕ → (ℕ → ℕ) → Outcome (List Operation)
unfolding generate hot_key_order
single_node_hot_set_data keys c num_hot_keys hot_key_ops rand = with_thirds keys (
    generate
      (λ i.
        hot_operation keys num_hot_keys hot_key_ops i (rand (2 * i))
          (random_node c (rand (2 * i + 1))))
      c.total_operations 0)

unfoldable pub single_node_hot_set_data_to_second_node_only :
    List ℕ → Configuration → ℕ → ℕ → (ℕ → ℕ) → Outcome (List Operation)
unfolding generate hot_key_order
single_node_hot_set_data_to_second_node_only keys c num_hot_keys hot_key_ops rand =
    with_thirds keys (
      generate (λ i. hot_operation keys num_hot_keys hot_key_ops i (rand i) (ok 2))
        c.total_operations 0)

unfoldable pub single_node_hot_set_data_to_second_node_only_rdma :
    List ℕ → Configuration → ℕ → ℕ → (ℕ → ℕ) → Outcome (List Operation)
unfolding generate hot_key_order
single_node_hot_set_data_to_second_node_only_rdma keys c num_hot_keys hot_key_ops rand =
    with_thirds keys (
      generate (λ i. hot_operation keys num_hot_keys hot_key_ops i (rand i) (ok 1))
        c.total_operations 0)
