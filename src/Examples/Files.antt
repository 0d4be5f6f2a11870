-- ===== src/Examples/Files.antt =====
-- A data set of twelve keys and a file of two operations.
use twig_kv.Common.{◌≡◌, refl, List, [], ◌∷◌, arith}
use twig_kv.Workload.Files.{FileOperation, dump_operation_set_to_file, load_operation_set_from_file}
use twig_kv.Workload.Files.Operations.{
  AllWritable, load_operation_set_from_file-dump_operation_set_to_file,
}

abbrev two_operations : List FileOperation
two_operations =
    record { key = b'1' ∷ b'0' ∷ []; node = 2; op = b'R' }
    ∷ record { key = b'7' ∷ []; node = 1; op = b'U' }
    ∷ []

two_operations-AllWritable : AllWritable two_operations
two_operations-AllWritable = (
  record {
    some_byte = omega arith;
    word = (refl, (refl, tt));
    int_node = omega arith;
    visible = refl;
  },
  (
    record { some_byte = omega arith; word = (refl, tt); int_node = omega arith; visible = refl },
    tt,
  ),
)

load_operation_set_from_file-dump_operation_set_to_file_example :
    load_operation_set_from_file (dump_operation_set_to_file two_operations) ≡ two_operations
load_operation_set_from_file-dump_operation_set_to_file_example =
    load_operation_set_from_file-dump_operation_set_to_file two_operations
      two_operations-AllWritable
