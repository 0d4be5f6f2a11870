-- ===== src/Examples/Generated.antt =====
-- Operations for nine keys.
use mathlib.Core.List.{flatten}
use twig_kv.Common.{
  ℕ, ◌+◌, ◌≡◌, ◌≤◌, List, [], ◌∷◌, ok, length, arith, ◌<◌, refl, map, number, to_string,
}
use twig_kv.Workload.Generate.{Operation}
use twig_kv.Workload.Generate.Picks.{AllFrom}
use twig_kv.Workload.Generate.Hot.{IsHot}
use twig_kv.Config.{Configuration}
use twig_kv.Workload.Split.{
  IsSharedOut, single_node_hot_set_data_to_80_second_node_20_other,
  single_node_hot_set_data_to_80_second_node_20_other_lem,
}
use twig_kv.Workload.Generate.{new_key_set}
use twig_kv.Config as Config
use twig_kv.Workload.Database.{
  Draws, generate_operation_set, generate_database_and_operation_set, file_operation, NodesFit,
  generate_database_and_operation_set_lem, single_node_hot_keys_loaded,
}
use twig_kv.Workload.Files.{read_keys_from_file, load_operation_set_from_file}
use twig_kv.Workload.Files.Dataset.{count_up}
use twig_kv.Workload.Generate.{generate_partitioned_operation_set}
use twig_kv.Workload.Partition.{
  IsAtTarget, IsPartitioned, generate_partitioned_operation_set-calculate_node_and_offset,
}
use twig_kv.Placement.Bijection.{IsSized}
use twig_kv.Workload.Generate.{generate_zipfian_partitioned_operation_set}
use twig_kv.Workload.Generate.Order.{occurs}
use twig_kv.Workload.Zipfian.{IsDrawn, generate_zipfian_partitioned_operation_set_lem}
use twig_kv.Examples.Setup.{ten_keys}

abbrev keys : List ℕ
keys = 1 ∷ 2 ∷ 3 ∷ 4 ∷ 5 ∷ 6 ∷ 7 ∷ 8 ∷ 9 ∷ []

abbrev rand : ℕ → ℕ
rand i = 7 + i

-- One hot thread and two others.
abbrev three_threads : Configuration
three_threads = record ten_keys {
  total_operations = 7;
  distribution_type = Config.single_node_hot_keys_to_second_node_split;
  hot_thread = 1;
  rdma_thread = 2;
}

single_node_hot_set_data_to_80_second_node_20_other_lem_example :
    (shares : List (List Operation)) × (single_node_hot_set_data_to_80_second_node_20_other keys
        three_threads 2
        (2 ∷ 0 ∷ 1 ∷ [])
        rand
      ≡ ok (flatten shares))
    × IsSharedOut (new_key_set keys) three_threads 2 (2 ∷ 0 ∷ 1 ∷ []) shares
single_node_hot_set_data_to_80_second_node_20_other_lem_example =
    single_node_hot_set_data_to_80_second_node_20_other_lem keys three_threads 2 (2 ∷ 0 ∷ 1 ∷ [])
      rand (omega arith) (omega arith) (omega arith)

abbrev draws : Draws
draws = record {
  letters = rand;
  rand = rand;
  key_order = [];
  thread_ids = 2 ∷ 0 ∷ 1 ∷ [];
  num_hot_keys = 2;
  hot_key_ops = 3;
}

abbrev split_operations : List Operation
split_operations =
    record { key = 4; node = 3 }
    ∷ record { key = 5; node = 3 }
    ∷ record { key = 4; node = 2 }
    ∷ record { key = 5; node = 2 }
    ∷ record { key = 5; node = 1 }
    ∷ record { key = 4; node = 1 }
    ∷ []

split_operations_generated :
    generate_operation_set Config.single_node_hot_keys_to_second_node_split
      (count_up 10 1)
      three_threads
      draws
    ≡ ok split_operations
unfolding single_node_hot_set_data_to_80_second_node_20_other count_up
split_operations_generated = refl

split_operations-NodesFit : NodesFit split_operations
split_operations-NodesFit =
    (omega arith, (omega arith, (omega arith, (omega arith, (omega arith, (omega arith, tt))))))

generate_database_and_operation_set_lem_example :
    (dataset op_file : List ℕ) × (generate_database_and_operation_set three_threads draws
      ≡ ok (dataset, op_file))
    × (map (number 0) (read_keys_from_file dataset) ≡ count_up 10 1)
    × (load_operation_set_from_file op_file
        ≡ map (file_operation Config.single_node_hot_keys_to_second_node_split) split_operations)
generate_database_and_operation_set_lem_example =
    generate_database_and_operation_set_lem three_threads draws split_operations (omega arith)
      split_operations_generated split_operations-NodesFit

abbrev hot_keys : Configuration
hot_keys = record ten_keys { distribution_type = Config.single_node_hot_keys }

single_node_hot_keys_loaded_example :
    (dataset op_file : List ℕ) × (os : List Operation) × (generate_database_and_operation_set
        hot_keys draws
      ≡ ok (dataset, op_file))
    × (load_operation_set_from_file op_file
        ≡ map (λ o. record { key = to_string o.key; node = o.node; op = b'R' }) os)
    × (length os ≡ 4)
    × AllFrom (λ i o. IsHot (count_up 10 1) 3 i o × (1 ≤ o.node) × (o.node ≤ 3)) 0 os
unfolding count_up
single_node_hot_keys_loaded_example =
    single_node_hot_keys_loaded hot_keys draws refl (omega arith) (omega arith) (omega arith)
      (omega arith) (omega arith) (omega arith)

abbrev nine_keys : Configuration
nine_keys = record ten_keys { num_key_value_pairs = 9 }

nine_keys-IsSized : IsSized nine_keys
nine_keys-IsSized = record { nodes = omega arith; pairs = omega arith; filled = omega arith }

generate_partitioned_operation_set-calculate_node_and_offset_example :
    (os : List Operation) × (generate_partitioned_operation_set (count_up 9 1) nine_keys ≡ ok os)
    × (length os ≡ 4)
    × AllFrom (IsPartitioned nine_keys) 0 os
generate_partitioned_operation_set-calculate_node_and_offset_example =
    generate_partitioned_operation_set-calculate_node_and_offset nine_keys nine_keys-IsSized refl

abbrev shuffled : List ℕ
shuffled = 2 ∷ 0 ∷ 1 ∷ []

indexes_of_shuffled : (y : ℕ) → 1 ≤ occurs y shuffled → y < 3
indexes_of_shuffled y h = ground arith

-- Three keys, one for each node.
abbrev small : Configuration
small = record ten_keys { num_key_value_pairs = 3 }

generate_zipfian_partitioned_operation_set_lem_example :
    (os : List Operation) × (generate_zipfian_partitioned_operation_set
        (count_up 3 1)
        shuffled
        small
        1
        3
        rand
      ≡ ok os)
    × (length os ≡ 4)
    × AllFrom (λ i o. IsDrawn (count_up 3 1) shuffled 1 3 i o × IsAtTarget small o) 0 os
generate_zipfian_partitioned_operation_set_lem_example =
    generate_zipfian_partitioned_operation_set_lem small shuffled 1 3 rand
      (record { nodes = omega arith; pairs = omega arith; filled = omega arith }) refl refl
      indexes_of_shuffled (omega arith) (omega arith)
