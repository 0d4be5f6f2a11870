-- ===== src/Workload/Files.antt =====
-- The files of src/dataset.cpp and src/operations.cpp: the data set, and the operations that are
-- written out and read back. A file is the list of its bytes; one that cannot be opened is not
-- modelled.
pub mod Dataset
pub mod Operations
use twig_kv.Common.{
  ℕ, zero, suc, ◌+◌, ◌^◌, Bool, true, false, ◌||◌, not, List, [], ◌∷◌, ◌++◌, Option, none, some,
  Outcome, ok, undefined, ltb, ◌==◌, if◌then◌else◌, length, to_string, number, is_space, is_digit,
  span, skip_space,
}

-- What `std::getline` reads, one line after the other; `line` is what it has of the first one. Bytes
-- after the last newline are a line if there are any.
unfoldable pub lines : List ℕ → List ℕ → List (List ℕ)
lines [] [] = []
lines [] (c ∷ line) = (c ∷ line) ∷ []
lines (c ∷ cs) line = elim (c == 10) [
  | true ↦ line ∷ lines cs []
  | false ↦ lines cs (line ++ c ∷ [])
]

-- `iss >> key`, which fails at the end of the line.
unfoldable pub first_word : List ℕ → Option (List ℕ)
unfolding span skip_space
first_word line = elim (skip_space line) [ [] ↦ none | c ∷ cs ↦ some (span is_space (c ∷ cs)).0 ]

abbrev keys_of : List (List ℕ) → List (List ℕ)
keys_of [] = []
keys_of (line ∷ rest) = elim (first_word line) [
  | none ↦ keys_of rest
  | some key ↦ key ∷ keys_of rest
]

-- `readKeysFromFile`
unfoldable pub read_keys_from_file : List ℕ → List (List ℕ)
unfolding lines first_word
read_keys_from_file file = keys_of (lines file [])

-- The loop of `createAndWriteDataset` from key `i` on, with the value that all lines get.
unfoldable pub write_dataset : (rounds i : ℕ) → List ℕ → List ℕ
unfolding to_string
write_dataset zero i value = []
write_dataset (suc rounds) i value =
    to_string i ++ b' ' ∷ (value ++ 10 ∷ write_dataset rounds (i + 1) value)

-- `createAndWriteDataset`, with the value. Its bound `numberOfKeys + 1` is an `int`.
unfoldable pub create_and_write_dataset : ℕ → List ℕ → Outcome (List ℕ)
unfolding write_dataset
create_and_write_dataset number_of_keys value =
    if ltb (number_of_keys + 1) (2 ^ 31)
    then ok (write_dataset number_of_keys 1 value)
    else undefined

-- A line of a file of operations.
pub record FileOperation : Type 0 where
  pub key : List ℕ
  pub node : ℕ
  pub op : ℕ

-- `dumpOperationSetToFile`
unfoldable pub dump_operation_set_to_file : List FileOperation → List ℕ
unfolding to_string
dump_operation_set_to_file [] = []
dump_operation_set_to_file (o ∷ os) =
    o.key ++ b' ' ∷ (to_string o.node ++ b' ' ∷ (o.op ∷ 10 ∷ dump_operation_set_to_file os))

-- `file >> key`
unfoldable pub read_word : List ℕ → Option (List ℕ × List ℕ)
unfolding span skip_space
read_word file = elim (skip_space file) [ [] ↦ none | c ∷ cs ↦ some (span is_space (c ∷ cs)) ]

-- The `int` that digits spell, with what follows them. A number that is no `int` fails.
abbrev pub spelled_int : List ℕ × List ℕ → Option (ℕ × List ℕ)
spelled_int ([], rest) = none
spelled_int (c ∷ cs, rest) =
    if ltb (number 0 (c ∷ cs)) (2 ^ 31) then some (number 0 (c ∷ cs), rest) else none

-- `file >> node`, for numbers without a sign.
unfoldable pub read_int : List ℕ → Option (ℕ × List ℕ)
unfolding span skip_space number
read_int file = spelled_int (span (λ c. not (is_digit c)) (skip_space file))

-- `file >> op`
unfoldable pub read_char : List ℕ → Option (ℕ × List ℕ)
unfolding skip_space
read_char file = elim (skip_space file) [ [] ↦ none | c ∷ cs ↦ some (c, cs) ]

-- One round of the loop of `loadOperationSetFromFile`.
unfoldable pub read_operation : List ℕ → Option (FileOperation × List ℕ)
unfolding read_word read_int read_char
read_operation file = elim (read_word file) [
  | none ↦ none
  | some (key, file₁) ↦ elim (read_int file₁) [
    | none ↦ none
    | some (node, file₂) ↦ elim (read_char file₂) [
      | none ↦ none
      | some (op, file₃) ↦ some (record { key = key; node = node; op = op }, file₃)
    ]
  ]
]

-- Each operation takes some bytes of the file, so its length bounds the rounds.
unfoldable pub load_from : ℕ → List ℕ → List FileOperation
unfolding read_operation
load_from zero file = []
load_from (suc rounds) file = elim (read_operation file) [
  | none ↦ []
  | some (o, rest) ↦ o ∷ load_from rounds rest
]

-- `loadOperationSetFromFile`
unfoldable pub load_operation_set_from_file : List ℕ → List FileOperation
unfolding load_from
load_operation_set_from_file file = load_from (length file) file
