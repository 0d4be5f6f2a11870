-- ===== src/Workload/Partition.antt =====
-- `generatePartitionedOperationSet` of src/operations.cpp sends an operation to the node that it takes
-- for the home of the key, and `calculateNodeAndOffset` of src/rdma_reads.cpp says which node has it.
use twig_kv.Common.{
  ℕ, ◌+◌, ◌-◌, ◌*◌, ◌/◌, ◌%◌, ◌≡◌, ◌≤◌, ◌<◌, refl, ap, sym, ◌∙◌, List, ok, ◌>>=◌, arith, ◌==◌,
  if◌then◌else◌, length, bind_ok, Bool-cases, inl, inr, div_step, div_step_back, div-lt_mul,
  mod-small,
}
use twig_kv.Config.{Configuration}
use twig_kv.Placement.{Placement, keys_per_node, calculate_node_and_offset}
use twig_kv.Placement.Bijection.{IsSized, keys_per_node_pos, calculate_node_and_offset_covered}
use twig_kv.Workload.Generate.{
  Operation, nth, remainder, partition_node, generate_partitioned_operation_set,
}
use twig_kv.Workload.Generate.Picks.{AllFrom, generate-AllFrom, remainder_lem}
use twig_kv.Workload.Files.Dataset.{count_up, length-count_up, get_elem?-count_up}

-- The node, from 1 on, that the generator sends a key to whose home has this index: the home, but
-- for a key that is a multiple of the number of keys of a node the node after it.
abbrev pub target_of : Configuration → ℕ → ℕ → ℕ
target_of c key node_index =
    (if key % keys_per_node c == 0 then (node_index + 1) % c.num_nodes else node_index) + 1

partition_of :
    (c : Configuration) (key : ℕ)
    → IsSized c
    → 1 ≤ key
    → key ≤ keys_per_node c * c.num_nodes
    → key / keys_per_node c % c.num_nodes + 1 ≡ target_of c key ((key - 1) / keys_per_node c)
partition_of c key v lo hi =
    let k = keys_per_node c in
    let pos = keys_per_node_pos c v in
    elim (Bool-cases (key % k == 0)) [
      | inl multiple ↦ rw (multiple, div_step_back k key (ground (arith, multiple)) pos lo) refl
      | inr other ↦
          let same = div_step k key (λ e. ground (arith, other, e)) pos lo in
          let low : (key - 1) / k < c.num_nodes =
            div-lt_mul k c.num_nodes (key - 1) (omega arith) in
          rw other (ap (λ q. q % c.num_nodes + 1) (sym same) ∙ ap (λ q. q + 1) (mod-small _ _ low))
    ]

-- The node that the partitioned generators compute for a key, as the home of the key says.
pub partition_node-target_of :
    (c : Configuration) (key : ℕ)
    → IsSized c
    → keys_per_node c * c.num_nodes ≡ c.num_key_value_pairs
    → 1 ≤ key
    → key ≤ c.num_key_value_pairs
    → (p : Placement) × (calculate_node_and_offset c key ≡ ok p)
      × (partition_node (count_up c.num_key_value_pairs 1) c key
          ≡ ok (target_of c key p.node_index))
partition_node-target_of c key v whole lo hi =
    let covered : key ≤ keys_per_node c * c.num_nodes = omega (arith, hi, whole) in
    let size = length-count_up c.num_key_value_pairs 1 in
    let sends : partition_node (count_up c.num_key_value_pairs 1) c key
        ≡ ok (key / keys_per_node c % c.num_nodes + 1) =
      rw size (ground (arith, v.nodes, v.pairs, hi, keys_per_node_pos c v)) in
    (
      record { node_index = (key - 1) / keys_per_node c; offset = (key - 1) % keys_per_node c },
      calculate_node_and_offset_covered c v key lo covered,
      sends ∙ ap ok (partition_of c key v lo covered),
    )

-- The node is that of the home of the key, or the next one.
abbrev pub IsAtTarget : Configuration → Operation → Type 0
IsAtTarget c o =
    (p : Placement) × (calculate_node_and_offset c o.key ≡ ok p)
    × (o.node ≡ target_of c o.key p.node_index)

-- The operation of round `i`: its key, and its node as the home of the key says.
abbrev pub IsPartitioned : Configuration → ℕ → Operation → Type 0
IsPartitioned c i o = (o.key ≡ 1 + i % c.num_key_value_pairs) × IsAtTarget c o

partition_round :
    (c : Configuration) (i : ℕ)
    → IsSized c
    → keys_per_node c * c.num_nodes ≡ c.num_key_value_pairs
    → (o : Operation) × ((remainder i (length (count_up c.num_key_value_pairs 1)) >>= λ x.
          nth (count_up c.num_key_value_pairs 1) x >>= λ key.
          partition_node (count_up c.num_key_value_pairs 1) c key >>= λ node.
          ok (record { key = key; node = node }))
        ≡ ok o)
      × IsPartitioned c i o
partition_round c i v whole =
    let n = c.num_key_value_pairs in
    let (draws, low) = remainder_lem i n (omega (arith, v.nodes, v.filled)) in
    let key = 1 + i % n in
    let picks : nth (count_up n 1) (i % n) ≡ ok key =
      ground (arith, get_elem?-count_up n 1 (i % n) low) in
    let (p, home, sends) =
      partition_node-target_of c key v whole (omega arith) (omega (arith, low)) in
    (
      record { key = key; node = target_of c key p.node_index },
      bind_ok _ (ap (remainder i) (length-count_up n 1) ∙ draws)
          ∙ bind_ok _ picks
          ∙ bind_ok _ sends,
      (refl, (p, home, refl)),
    )

-- With sizes that fit in an `int` and a number of keys that is a positive multiple of the number of
-- nodes: for the keys from 1 to the number of keys, the partitioned generator returns as many
-- operations as are asked for, for the keys in turn. Each goes to the node where
-- `calculateNodeAndOffset` places its key, except that of the last key of a node, which goes to the
-- next node, and from the last node to the first.
pub generate_partitioned_operation_set-calculate_node_and_offset :
    (c : Configuration)
    → IsSized c
    → keys_per_node c * c.num_nodes ≡ c.num_key_value_pairs
    → (os : List Operation) × (generate_partitioned_operation_set
          (count_up c.num_key_value_pairs 1)
          c
        ≡ ok os)
      × (length os ≡ c.total_operations)
      × AllFrom (IsPartitioned c) 0 os
unfolding generate_partitioned_operation_set
generate_partitioned_operation_set-calculate_node_and_offset c v whole =
    generate-AllFrom (IsPartitioned c) _ (λ i. partition_round c i v whole) c.total_operations 0
