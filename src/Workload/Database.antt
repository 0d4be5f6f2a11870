-- ===== src/Workload/Database.antt =====
-- `generateDatabaseAndOperationSet` of src/dataset.cpp, which main calls when operations are to be
-- dumped: it writes the data set, reads its keys back, and writes the operations for them.
use twig_kv.Common.{
  ℕ, zero, suc, ◌+◌, ◌%◌, ◌≡◌, ◌≤◌, ◌<◌, ◌^◌, refl, ap, sym, subst, ◌∙◌, true, false, not, List, [],
  ◌∷◌, Outcome, ok, ◌>>=◌, arith, map, length, to_string, number, bind_ok, if_true, lt→ltb, All,
  All-mono, to_string-All, to_string_cons, is_digit, is_space,
}
use twig_kv.Config.{Configuration, DistributionType}
use twig_kv.Config as Config
use twig_kv.Workload.Generate.{
  Operation, new_key_set, generate_random_operation_set, generate_partitioned_operation_set,
  generate_zipfian_operation_set, generate_zipfian_partitioned_operation_set,
  single_node_hot_set_data, single_node_hot_set_data_to_second_node_only,
  single_node_hot_set_data_to_second_node_only_rdma,
}
use twig_kv.Workload.Generate.Picks.{AllFrom}
use twig_kv.Workload.Generate.Hot.{IsHot, single_node_hot_set_data_lem}
use twig_kv.Workload.Split.{single_node_hot_set_data_to_80_second_node_20_other}
use twig_kv.Workload.Files.{
  create_and_write_dataset, FileOperation, read_keys_from_file, write_dataset,
  dump_operation_set_to_file, load_operation_set_from_file,
}
use twig_kv.Workload.Files.Dataset.{
  inline, count_up, length-count_up, read_keys_from_file-write_dataset,
}
use twig_kv.Workload.Files.Operations.{
  Writable, AllWritable, load_operation_set_from_file-dump_operation_set_to_file,
}

-- The random numbers, for the letters of the value and for the generator, the orders that
-- `std::random_shuffle` makes of the keys or of the threads, and the counts that the generator
-- computes from fields of type `double`.
pub record Draws : Type 0 where
  pub letters : ℕ → ℕ
  pub rand : ℕ → ℕ
  pub key_order : List ℕ
  pub thread_ids : List ℕ
  pub num_hot_keys : ℕ
  pub hot_key_ops : ℕ

-- The value of all keys, from the random number `r` on.
unfoldable pub random_value : (rounds r : ℕ) → (ℕ → ℕ) → List ℕ
random_value zero r letters = []
random_value (suc rounds) r letters = (letters r % 26 + b'A') ∷ random_value rounds (r + 1) letters

-- The `switch` over the distribution.
abbrev pub generate_operation_set :
    DistributionType → List ℕ → Configuration → Draws → Outcome (List Operation)
generate_operation_set distribution keys c d = elim distribution [
  | Config.random_distribution ↦ generate_random_operation_set keys c d.rand
  | Config.partitioned_distribution ↦ generate_partitioned_operation_set keys c
  | Config.zipfian_distribution ↦
      generate_zipfian_operation_set keys d.key_order c d.num_hot_keys d.hot_key_ops d.rand
  | Config.zipfian_partitioned_distribution ↦
      generate_zipfian_partitioned_operation_set keys d.key_order c d.num_hot_keys d.hot_key_ops
        d.rand
  | Config.single_node_hot_keys ↦
      single_node_hot_set_data keys c d.num_hot_keys d.hot_key_ops d.rand
  | Config.single_node_hot_keys_to_second_node_only ↦
      single_node_hot_set_data_to_second_node_only keys c d.num_hot_keys d.hot_key_ops d.rand
  | Config.single_node_hot_keys_to_second_node_rdma_only ↦
      single_node_hot_set_data_to_second_node_only_rdma keys c d.num_hot_keys d.hot_key_ops d.rand
  | Config.single_node_hot_keys_to_second_node_split ↦
      single_node_hot_set_data_to_80_second_node_20_other keys c d.num_hot_keys d.thread_ids d.rand
  | Config.ycsb ↦ ok []
]

-- The `op` of the operations: READ_OP, or the zero of an operation that is made without one.
abbrev pub op_of : DistributionType → ℕ
op_of distribution = elim distribution [
  | Config.single_node_hot_keys_to_second_node_split ↦ 0
  | _ ↦ b'R'
]

abbrev pub file_operation : DistributionType → Operation → FileOperation
file_operation distribution o = record {
  key = to_string o.key;
  node = o.node;
  op = op_of distribution;
}

-- The data set and the file of operations that are written.
unfoldable pub generate_database_and_operation_set :
    Configuration → Draws → Outcome (List ℕ × List ℕ)
unfolding create_and_write_dataset read_keys_from_file dump_operation_set_to_file random_value
generate_database_and_operation_set c d = do
  dataset ← create_and_write_dataset c.num_key_value_pairs (random_value c.value_size 0 d.letters)
  os ← generate_operation_set c.distribution_type (map (number 0) (read_keys_from_file dataset)) c d
  ok (dataset, dump_operation_set_to_file (map (file_operation c.distribution_type) os))

inline_letter : (x : ℕ) → inline (x + b'A') ≡ true
inline_letter x = ground arith

random_value-inline : (rounds r : ℕ) (letters : ℕ → ℕ) → All inline (random_value rounds r letters)
unfolding random_value
random_value-inline zero r letters = tt
random_value-inline (suc rounds) r letters =
    (inline_letter (letters r % 26), random_value-inline rounds (r + 1) letters)

visible_op : (t : DistributionType) → is_space (op_of t) ≡ false
visible_op t = elim t as (λ k. is_space (op_of k) ≡ false) [
  | Config.single_node_hot_keys_to_second_node_split ↦ refl
  | _ ↦ refl
]

file_operation-Writable :
    (t : DistributionType) (o : Operation) → o.node < 2 ^ 31 → Writable (file_operation t o)
file_operation-Writable t o small =
    let (c, cs, e) = to_string_cons o.key in
    record {
      some_byte = subst (λ k. 1 ≤ length k) (sym e) (omega arith);
      word =
          All-mono is_digit (λ c. not (is_space c)) (to_string o.key) (λ c e. ground arith)
            (to_string-All o.key);
      int_node = small;
      visible = visible_op t;
    }

-- The nodes are `int` numbers.
abbrev pub NodesFit : List Operation → Type 0
NodesFit [] = Unit {0}
NodesFit (o ∷ os) = (o.node < 2 ^ 31) × NodesFit os

file_operations-AllWritable :
    (t : DistributionType) (os : List Operation)
    → NodesFit os
    → AllWritable (map (file_operation t) os)
file_operations-AllWritable t [] fit = tt
file_operations-AllWritable t (o ∷ os) (small, fit) =
    (file_operation-Writable t o small, file_operations-AllWritable t os fit)

-- With at most `2 ^ 31 - 2` keys, and for any distribution whose generator returns operations, with
-- nodes that are `int` numbers, for the keys from 1 to the number of keys: the function returns,
-- the data set that it has written has exactly these keys, in this order, and what a client loads
-- from the file of operations is what the generator has returned, in this order.
pub generate_database_and_operation_set_lem :
    (c : Configuration) (d : Draws) (os : List Operation)
    → c.num_key_value_pairs + 1 < 2 ^ 31
    → generate_operation_set c.distribution_type (count_up c.num_key_value_pairs 1) c d ≡ ok os
    → NodesFit os
    → (dataset op_file : List ℕ) × (generate_database_and_operation_set c d ≡ ok (dataset, op_file))
      × (map (number 0) (read_keys_from_file dataset) ≡ count_up c.num_key_value_pairs 1)
      × (load_operation_set_from_file op_file ≡ map (file_operation c.distribution_type) os)
unfolding generate_database_and_operation_set
generate_database_and_operation_set_lem c d os few run fit =
    let value = random_value c.value_size 0 d.letters in
    let dataset = write_dataset c.num_key_value_pairs 1 value in
    let (_, keys) =
      read_keys_from_file-write_dataset c.num_key_value_pairs value
        (random_value-inline c.value_size 0 d.letters) (omega (arith, few)) in
    let stored = map (file_operation c.distribution_type) os in
    (
      dataset,
      dump_operation_set_to_file stored,
      bind_ok _ (if_true _ (lt→ltb _ _ few))
          ∙ bind_ok _ (ap (λ ks. generate_operation_set c.distribution_type ks c d) keys ∙ run),
      keys,
      load_operation_set_from_file-dump_operation_set_to_file stored
          (file_operations-AllWritable c.distribution_type os fit),
    )

AllFrom-NodesFit :
    (P : ℕ → Operation → Type 0) (n i : ℕ) (os : List Operation)
    → n < 2 ^ 31
    → AllFrom (λ i o. P i o × (1 ≤ o.node) × (o.node ≤ n)) i os
    → NodesFit os
AllFrom-NodesFit P n i [] small a = tt
AllFrom-NodesFit P n i (o ∷ os) small ((p, low, high), a) =
    (omega (arith, small, high), AllFrom-NodesFit P n (i + 1) os small a)

-- For the distribution of hot keys on a single node, with fewer than `2 ^ 30` keys, some hot keys, no
-- more than the middle third of the keys has, some others, and a number of nodes that is positive
-- and fits in an `int`: whatever the random numbers are, the function returns, and what a client
-- loads from the file of operations are as many as are asked for, each with READ_OP and a node that
-- exists, the first `hot_key_ops` of them for keys in the middle third of the numbers from 1 to the
-- number of keys, the others for any of these.
pub single_node_hot_keys_loaded :
    (c : Configuration) (d : Draws)
    → c.distribution_type ≡ Config.single_node_hot_keys
    → c.num_key_value_pairs < 2 ^ 30
    → 0 < d.num_hot_keys
    → d.num_hot_keys ≤ length (new_key_set (count_up c.num_key_value_pairs 1))
    → d.num_hot_keys < length (count_up c.num_key_value_pairs 1)
    → 0 < c.num_nodes
    → c.num_nodes < 2 ^ 31
    → (dataset op_file : List ℕ) × (os : List Operation) × (generate_database_and_operation_set c d
        ≡ ok (dataset, op_file))
      × (load_operation_set_from_file op_file
          ≡ map (λ o. record { key = to_string o.key; node = o.node; op = b'R' }) os)
      × (length os ≡ c.total_operations)
      × AllFrom
          (λ i o.
            IsHot (count_up c.num_key_value_pairs 1) d.hot_key_ops i o
            × (1 ≤ o.node)
            × (o.node ≤ c.num_nodes))
          0
          os
single_node_hot_keys_loaded c d hot few some_hot middle some_cold some_node small =
    let keys = count_up c.num_key_value_pairs 1 in
    let (os, run, size, all) =
      single_node_hot_set_data_lem keys d.num_hot_keys d.hot_key_ops some_hot middle some_cold c
        d.rand (omega (arith, few, length-count_up c.num_key_value_pairs 1)) some_node in
    let fit = AllFrom-NodesFit (IsHot keys d.hot_key_ops) c.num_nodes 0 os small all in
    let (dataset, op_file, written, _, loaded) =
      generate_database_and_operation_set_lem c d os (omega (arith, few))
        (ap (λ t. generate_operation_set t keys c d) hot ∙ run) fit in
    (dataset, op_file, os, written, loaded ∙ ap (λ t. map (file_operation t) os) hot, size, all)
