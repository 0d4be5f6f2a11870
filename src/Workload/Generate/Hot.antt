-- ===== src/Workload/Generate/Hot.antt =====
-- The single-node distributions: the hot operations are for the middle third of the keys.
use twig_kv.Common.{
  ℕ, zero, suc, ◌+◌, ◌-◌, ◌*◌, ◌%◌, ◌<◌, ◌≤◌, ◌≡◌, refl, List, [], ◌∷◌, ◌++◌, some, Outcome, ok,
  ◌>>=◌, arith, ltb, if◌then◌else◌, length, get_elem?, get_elem?-lt, Bool-cases, inl, inr, ◌^◌, ◌∙◌,
  if_true, lt→ltb,
}
use twig_kv.Config.{Configuration}
use twig_kv.Workload.Generate.{
  Operation, with_thirds, nth, random_node, draw_index, hot_key_order, hot_operation, new_key_set,
  single_node_hot_set_data, single_node_hot_set_data_to_second_node_only,
}
use twig_kv.Workload.Generate.Order.{occurs, hot_key_order-occurs, length-hot_key_order}
use twig_kv.Workload.Generate.Picks.{AllFrom, generate-AllFrom, get_elem?-occurs, remainder_lem}

-- The first `hot_key_ops` operations are for keys of the middle third, the others for any key.
abbrev pub IsHot : List ℕ → ℕ → ℕ → Operation → Type 0
IsHot keys hot_key_ops i o = 1 ≤ occurs o.key (if ltb i hot_key_ops then new_key_set keys else keys)

prefix-occurs :
    (xs ys : List ℕ) (i key : ℕ)
    → i < length xs
    → get_elem? (xs ++ ys) i ≡ some key
    → 1 ≤ occurs key xs
prefix-occurs [] ys i key lt h = elim lt [ ]
prefix-occurs (x ∷ xs) ys zero key lt h = ground arith
prefix-occurs (x ∷ xs) ys (suc i) key lt h =
    omega (arith, prefix-occurs xs ys i key (omega arith) h)

nth-ok : (keys : List ℕ) (i key : ℕ) → get_elem? keys i ≡ some key → nth keys i ≡ ok key
nth-ok keys i key h = ground arith

module _ (keys : List ℕ) (num_hot_keys hot_key_ops : ℕ) (some_hot : 0 < num_hot_keys)
    (middle : num_hot_keys ≤ length (new_key_set keys))
    (some_cold : num_hot_keys < length keys) where
  with_thirds_lem :
      {rest : Outcome (List Operation)} → 2 * length keys < 2 ^ 31 → with_thirds keys rest ≡ rest
  with_thirds_lem small = if_true _ (lt→ltb _ _ small)

  hot_key :
      (i r : ℕ)
      → (x : ℕ) × (key : ℕ) × (draw_index (length keys) num_hot_keys hot_key_ops i r ≡ ok x)
        × (nth (hot_key_order keys) x ≡ ok key)
        × (1 ≤ occurs key (if ltb i hot_key_ops then new_key_set keys else keys))
  unfolding hot_key_order
  hot_key i r = elim (Bool-cases (ltb i hot_key_ops)) [
    | inl hot ↦
        let (e, lt) = remainder_lem r num_hot_keys some_hot in
        let (key, at) =
          get_elem?-lt (hot_key_order keys) (r % num_hot_keys)
            (omega (arith, lt, some_cold, length-hot_key_order keys)) in
        (
          r % num_hot_keys,
          key,
          rw hot e,
          (nth-ok (hot_key_order keys) (r % num_hot_keys) key at),
          rw hot (
              prefix-occurs (new_key_set keys) _ (r % num_hot_keys) key (omega (arith, lt, middle))
                at),
        )
    | inr cold ↦
        let (e, lt) = remainder_lem r (length keys - num_hot_keys) (omega (arith, some_cold)) in
        let (key, at) =
          get_elem?-lt (hot_key_order keys) (num_hot_keys + r % (length keys - num_hot_keys))
            (omega (arith, lt, some_cold, length-hot_key_order keys)) in
        (
          num_hot_keys + r % (length keys - num_hot_keys),
          key,
          rw (cold, e) refl,
          (nth-ok (hot_key_order keys) (num_hot_keys + r % (length keys - num_hot_keys)) key at),
          rw cold (
              omega (
                arith,
                get_elem?-occurs (hot_key_order keys) _ key at,
                hot_key_order-occurs key keys,
              )),
        )
  ]

  hot_operation_lem :
      (i r n : ℕ) (node : Outcome ℕ)
      → node ≡ ok n
      → (o : Operation) × (hot_operation keys num_hot_keys hot_key_ops i r node ≡ ok o)
        × IsHot keys hot_key_ops i o
        × (o.node ≡ n)
  hot_operation_lem i r n node e =
      let (x, key, draws, picks, hot) = hot_key i r in
      let ends_in : (nth (hot_key_order keys) x >>= λ k.
      node >>= λ m. ok (record { key = k; node = m }))
          ≡ ok (record { key = key; node = n }) =
        rw (picks, e) refl in
      (record { key = key; node = n }, rw (draws, hot_operation) ends_in, hot, refl)

  -- With fewer than `2 ^ 30` keys, some hot keys, no more than the middle third of the keys has, and some others: the generator
  -- for the second node returns as many operations as are asked for, all for node 2, the first
  -- `hotKeyOps` of them for keys of the middle third and the others for keys of the data set,
  -- whatever the random numbers are.
  pub single_node_hot_set_data_to_second_node_only_lem :
      (c : Configuration) (rand : ℕ → ℕ)
      → 2 * length keys < 2 ^ 31
      → (os : List Operation) × (single_node_hot_set_data_to_second_node_only keys c num_hot_keys
            hot_key_ops rand
          ≡ ok os)
        × (length os ≡ c.total_operations)
        × AllFrom (λ i o. IsHot keys hot_key_ops i o × (o.node ≡ 2)) 0 os
  unfolding single_node_hot_set_data_to_second_node_only
  single_node_hot_set_data_to_second_node_only_lem c rand small =
      let (os, run, size, all) =
        generate-AllFrom (λ i o. IsHot keys hot_key_ops i o × (o.node ≡ 2)) _
          (λ i.
            let (o, run, hot, same) = hot_operation_lem i (rand i) 2 (ok 2) refl in
            (o, run, (hot, same)))
          c.total_operations 0 in
      (os, with_thirds_lem small ∙ run, size, all)

  -- With fewer than `2 ^ 30` keys, some hot keys, no more than the middle third of the keys has, with some other keys, and with
  -- at least one node: the generator for all nodes returns as many operations as are asked for, all
  -- for nodes that exist, the first `hotKeyOps` of them for keys of the middle third and the others
  -- for keys of the data set, whatever the random numbers are.
  pub single_node_hot_set_data_lem :
      (c : Configuration) (rand : ℕ → ℕ)
      → 2 * length keys < 2 ^ 31
      → 0 < c.num_nodes
      → (os : List Operation) × (single_node_hot_set_data keys c num_hot_keys hot_key_ops rand
          ≡ ok os)
        × (length os ≡ c.total_operations)
        × AllFrom (λ i o. IsHot keys hot_key_ops i o × (1 ≤ o.node) × (o.node ≤ c.num_nodes)) 0 os
  unfolding single_node_hot_set_data
  single_node_hot_set_data_lem c rand small some_node =
      let (os, run, size, all) =
        generate-AllFrom (λ i o. IsHot keys hot_key_ops i o × (1 ≤ o.node) × (o.node ≤ c.num_nodes))
          _
          (λ i.
            let (e, lt) = remainder_lem (rand (2 * i + 1)) c.num_nodes some_node in
            let (o, run, hot, same) =
              hot_operation_lem i (rand (2 * i)) (rand (2 * i + 1) % c.num_nodes + 1)
                (random_node c (rand (2 * i + 1))) (rw e refl) in
            (o, run, (hot, omega (arith, same), omega (arith, same, lt))))
          c.total_operations 0 in
      (os, with_thirds_lem small ∙ run, size, all)
