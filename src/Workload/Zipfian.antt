-- ===== src/Workload/Zipfian.antt =====
-- `generateZipfianOperationSet` and `generateZipfianPartitionedOperationSet` of src/operations.cpp: the
-- hot keys are those that the shuffled order has first.
use twig_kv.Common.{
  sym, ℕ, zero, suc, ◌+◌, ◌-◌, ◌*◌, ◌%◌, ◌≡◌, ◌≤◌, ◌<◌, refl, ap, ◌∙◌, List, [], ◌∷◌, ok, some,
  arith, ltb, if◌then◌else◌, length, get_elem?, get_elem?-lt, take, drop, bind_ok, Bool-cases, inl,
  inr,
}
use twig_kv.Config.{Configuration}
use twig_kv.Workload.Generate.{
  Operation, nth, draw_index, generate_zipfian_operation_set,
  generate_zipfian_partitioned_operation_set,
}
use twig_kv.Placement.{keys_per_node}
use twig_kv.Placement.Bijection.{IsSized}
use twig_kv.Workload.Partition.{IsAtTarget, target_of, partition_node-target_of}
use twig_kv.Workload.Files.Dataset.{count_up, length-count_up, get_elem?-count_up}
use twig_kv.Workload.Generate.Order.{occurs}
use twig_kv.Workload.Generate.Picks.{AllFrom, generate-AllFrom, get_elem?-occurs, remainder_lem}

-- The indexes among which round `i` draws: the first `num_hot_keys` of the order, or the others.
abbrev pub choices : List ℕ → ℕ → ℕ → ℕ → List ℕ
choices key_order num_hot_keys hot_key_ops i =
    if ltb i hot_key_ops then take num_hot_keys key_order else drop num_hot_keys key_order

-- The key stands in the data set under one of these indexes.
abbrev pub IsDrawn : List ℕ → List ℕ → ℕ → ℕ → ℕ → Operation → Type 0
IsDrawn keys key_order num_hot_keys hot_key_ops i o =
    (y : ℕ) × (get_elem? keys y ≡ some o.key)
    × (1 ≤ occurs y (choices key_order num_hot_keys hot_key_ops i))

take-occurs : (xs : List ℕ) (n j y : ℕ) → j < n → get_elem? xs j ≡ some y → 1 ≤ occurs y (take n xs)
take-occurs [] n j y low h = absurd cc
take-occurs (x ∷ xs) zero j y low h = absurd (omega arith)
take-occurs (x ∷ xs) (suc n) zero y low h = ground arith
take-occurs (x ∷ xs) (suc n) (suc j) y low h = omega (arith, take-occurs xs n j y (omega arith) h)

drop-occurs : (xs : List ℕ) (n j y : ℕ) → get_elem? xs (n + j) ≡ some y → 1 ≤ occurs y (drop n xs)
drop-occurs xs zero j y h =
    let same : j ≡ zero + j = omega arith in get_elem?-occurs xs j y (ap (get_elem? xs) same ∙ h)
drop-occurs [] (suc n) j y h = absurd cc
drop-occurs (x ∷ xs) (suc n) j y h =
    let step : suc (n + j) ≡ suc n + j = omega arith in
    drop-occurs xs n j y (ap (get_elem? (x ∷ xs)) step ∙ h)

module _ (keys key_order : List ℕ) (num_hot_keys hot_key_ops : ℕ)
    (same : length key_order ≡ length keys)
    (indexes : (y : ℕ) → 1 ≤ occurs y key_order → y < length keys) (some_hot : 0 < num_hot_keys)
    (some_cold : num_hot_keys < length keys) where
  draw_index_lem :
      (i r : ℕ)
      → (x y : ℕ) × (draw_index (length keys) num_hot_keys hot_key_ops i r ≡ ok x)
        × (get_elem? key_order x ≡ some y)
        × (1 ≤ occurs y (choices key_order num_hot_keys hot_key_ops i))
  draw_index_lem i r = elim (Bool-cases (ltb i hot_key_ops)) [
    | inl hot ↦
        let (e, low) = remainder_lem r num_hot_keys some_hot in
        let (y, at) =
          get_elem?-lt key_order (r % num_hot_keys) (omega (arith, low, some_cold, same)) in
        (r % num_hot_keys, y, rw hot e, at, rw hot (take-occurs key_order num_hot_keys _ y low at))
    | inr cold ↦
        let rest = length keys - num_hot_keys in
        let (e, low) = remainder_lem r rest (omega arith) in
        let (y, at) =
          get_elem?-lt key_order (num_hot_keys + r % rest) (omega (arith, low, some_cold, same)) in
        (
          num_hot_keys + r % rest,
          y,
          rw (cold, e) refl,
          at,
          rw cold (drop-occurs key_order num_hot_keys (r % rest) y at),
        )
  ]

  chosen_key :
      (i r : ℕ) (node : ℕ → ℕ)
      → (x y key : ℕ) × (draw_index (length keys) num_hot_keys hot_key_ops i r ≡ ok x)
        × (nth key_order x ≡ ok y)
        × (nth keys y ≡ ok key)
        × IsDrawn keys key_order num_hot_keys hot_key_ops i (record { key = key; node = node key })
  chosen_key i r node =
      let (x, y, draws, at, among) = draw_index_lem i r in
      let (key, at') = get_elem?-lt keys y (indexes y (get_elem?-occurs key_order x y at)) in
      (x, y, key, draws, ground (arith, at), ground (arith, at'), (y, at', among))

  module _ (c : Configuration) (rand : ℕ → ℕ) (some_node : 0 < c.num_nodes) where
    -- With an order of the indexes of all keys, with some hot keys, some others, and at least one
    -- node: whatever the random numbers are, the generator returns as many operations as are asked
    -- for, each for a node that exists, the first `hotKeyOps` of them for keys that the order has
    -- among the first `numHotKeys`, and the others for keys that it has after these.
    pub generate_zipfian_operation_set_lem :
        (os : List Operation) × (generate_zipfian_operation_set keys key_order c num_hot_keys
            hot_key_ops rand
          ≡ ok os)
        × (length os ≡ c.total_operations)
        × AllFrom
            (λ i o.
              IsDrawn keys key_order num_hot_keys hot_key_ops i o
              × (1 ≤ o.node)
              × (o.node ≤ c.num_nodes))
            0
            os
    unfolding generate_zipfian_operation_set
    generate_zipfian_operation_set_lem =
        generate-AllFrom _ _
          (λ i.
            let r = rand (2 * i + 1) in
            let (x, y, key, draws, orders, picks, drawn) =
              chosen_key i (rand (2 * i)) (λ k. r % c.num_nodes + 1) in
            let (e, low) = remainder_lem r c.num_nodes some_node in
            (
              record { key = key; node = r % c.num_nodes + 1 },
              bind_ok _ draws ∙ bind_ok _ orders ∙ bind_ok _ picks ∙ bind_ok _ (bind_ok _ e),
              (drawn, omega arith, omega (arith, low)),
            ))
          c.total_operations 0

-- For the keys from 1 to their number, with sizes that fit in an `int` and a number of keys that is
-- a positive multiple of the number of nodes, with an order of the indexes of all keys, with some
-- hot keys and some others: whatever the random numbers are, the generator returns as many
-- operations as are asked for, the first `hotKeyOps` of them for keys that the order has among the
-- first `numHotKeys`, and the others for keys that it has after these. Each goes to the node where
-- `calculateNodeAndOffset` places its key, except that of the last key of a node, which goes to the
-- next node, and from the last node to the first.
pub generate_zipfian_partitioned_operation_set_lem :
    (c : Configuration) (key_order : List ℕ) (num_hot_keys hot_key_ops : ℕ) (rand : ℕ → ℕ)
    → IsSized c
    → keys_per_node c * c.num_nodes ≡ c.num_key_value_pairs
    → length key_order ≡ c.num_key_value_pairs
    → ((y : ℕ) → 1 ≤ occurs y key_order → y < c.num_key_value_pairs)
    → 0 < num_hot_keys
    → num_hot_keys < c.num_key_value_pairs
    → let keys = count_up c.num_key_value_pairs 1 in
      (os : List Operation) × (generate_zipfian_partitioned_operation_set keys key_order c
          num_hot_keys hot_key_ops rand
        ≡ ok os)
      × (length os ≡ c.total_operations)
      × AllFrom (λ i o. IsDrawn keys key_order num_hot_keys hot_key_ops i o × IsAtTarget c o) 0 os
unfolding generate_zipfian_partitioned_operation_set
generate_zipfian_partitioned_operation_set_lem c key_order num_hot_keys hot_key_ops rand v whole
      order indexes some_hot some_cold =
    let n = c.num_key_value_pairs in
    let keys = count_up n 1 in
    let size = length-count_up n 1 in
    generate-AllFrom (λ i o. IsDrawn keys key_order num_hot_keys hot_key_ops i o × IsAtTarget c o) _
      (λ i.
        let (x, y, draws, at, among) =
          draw_index_lem keys key_order num_hot_keys hot_key_ops (order ∙ sym size)
            (λ y h. omega (arith, indexes y h, size)) some_hot (omega (arith, some_cold, size)) i
            (rand i) in
        let low = indexes y (get_elem?-occurs key_order x y at) in
        let at' = get_elem?-count_up n 1 y low in
        let (p, home, sends) =
          partition_node-target_of c (1 + y) v whole (omega arith) (omega (arith, low)) in
        let orders : nth key_order x ≡ ok y = ground (arith, at) in
        let picks : nth keys y ≡ ok (1 + y) = ground (arith, at') in
        (
          record { key = 1 + y; node = target_of c (1 + y) p.node_index },
          bind_ok _ draws ∙ bind_ok _ orders ∙ bind_ok _ picks ∙ bind_ok _ sends,
          ((y, at', among), (p, home, refl)),
        ))
      c.total_operations 0
