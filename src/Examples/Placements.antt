-- ===== src/Examples/Placements.antt =====
-- Keys, their slots and their blocks.
use twig_kv.Common.{
  ℕ, ◌-◌, ◌<◌, ◌≡◌, List, [], ◌∷◌, ok, arith, ◌>>=◌, replicate, length, get_or, length-replicate,
  ◌==◌, if◌then◌else◌,
}
use mathlib.Core.List.{flatten}
use twig_kv.Placement.{
  Placement, calculate_node_and_offset, write_correct_node, read_correct_node, blksz,
}
use twig_kv.Placement.Bijection.{IsSized, key_of, calculate_node_and_offset-key_of}
use twig_kv.Placement.Blocks.{read_correct_node-overlap}
use twig_kv.Workload.Chunks.{divide_operation_set_per_thread}
use twig_kv.Workload.Chunks.Bounds.{flatten-divide_operation_set_per_thread}
use twig_kv.Examples.Setup.{ten_keys, network, network_laws, Bytes}

ten_keys-IsSized : IsSized ten_keys
ten_keys-IsSized = record { nodes = omega arith; pairs = omega arith; filled = omega arith }

-- The slot of key 5.
abbrev slot : Placement
slot = record { node_index = 1; offset = 1 }

calculate_node_and_offset-key_of_example :
    (p : Placement) × (calculate_node_and_offset ten_keys 5 ≡ ok p)
    × (p.node_index < 3)
    × (p.offset < 3)
    × (key_of ten_keys p ≡ 5)
calculate_node_and_offset-key_of_example =
    calculate_node_and_offset-key_of ten_keys ten_keys-IsSized 5 (omega arith) (omega arith)

abbrev zeros : Bytes
zeros s a = 0

abbrev block : ℕ → List ℕ
block n = replicate blksz n

read_correct_node-overlap_example :
    (got : List ℕ) × ((do
      m₁ ← write_correct_node network ten_keys 0 zeros 4 (block 7)
      m₂ ← write_correct_node network ten_keys 0 m₁ 5 (block 8)
      read_correct_node network ten_keys 0 m₂ 4)
      ≡ ok got)
    × ((i : ℕ)
        → i < blksz
        → get_or got i 0 ≡ (if i == 0 then get_or (block 7) 0 0 else get_or (block 8) (i - 1) 0))
read_correct_node-overlap_example =
    read_correct_node-overlap network network_laws ten_keys 0 ten_keys-IsSized zeros 4 (block 7)
      (block 8) (omega arith) (omega arith) (omega arith) (length-replicate {A = ℕ} blksz 7)
      (length-replicate {A = ℕ} blksz 8)

abbrev five : List ℕ
five = 1 ∷ 2 ∷ 3 ∷ 4 ∷ 5 ∷ []

abbrev shares : List (List ℕ)
shares = (1 ∷ 2 ∷ 3 ∷ []) ∷ (4 ∷ 5 ∷ []) ∷ []

flatten-divide_operation_set_per_thread_example :
    (ds : List (List ℕ)) × (divide_operation_set_per_thread five 2 ≡ ok ds)
    × (length ds ≡ 2)
    × (flatten ds ≡ five)
flatten-divide_operation_set_per_thread_example =
    flatten-divide_operation_set_per_thread five 2 (omega arith)
