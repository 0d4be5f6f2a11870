-- ===== src/Workload/Files/Operations.antt =====
-- A file of operations is read back as it was written.
use twig_kv.Common.{
  ℕ, zero, suc, ◌-◌, ◌≡◌, ◌<◌, ◌≤◌, ◌^◌, refl, ap, sym, ◌∙◌, subst, false, not, List, [], ◌∷◌, ◌++◌,
  none, some, arith, lt→ltb, if_true, length, length-append, to_string, number, number-to_string,
  to_string-All, to_string_cons, is_space, is_digit, All, All-mono, span, span-append, skip_space,
  skip_space_word,
}
use twig_kv.Workload.Files.{
  FileOperation, dump_operation_set_to_file, read_word, read_int, read_char, spelled_int,
  read_operation, load_from, load_operation_set_from_file,
}

-- The key is a word, the node an `int`, and `op` no space.
pub record Writable (o : FileOperation) : Type 0 where
  pub some_byte : 1 ≤ length o.key
  pub word : All (λ c. not (is_space c)) o.key
  pub int_node : o.node < 2 ^ 31
  pub visible : is_space o.op ≡ false

abbrev pub AllWritable : List FileOperation → Type 0
AllWritable [] = Unit {0}
AllWritable (o ∷ os) = Writable o × AllWritable os

pub Option_injective {ℓ} : {A : Type ℓ} {a b : A} → some a ≡ some b → a ≡ b
Option_injective e = cc

read_word-append :
    (key rest : List ℕ)
    → 1 ≤ length key
    → All (λ c. not (is_space c)) key
    → read_word (key ++ b' ' ∷ rest) ≡ some (key, b' ' ∷ rest)
unfolding read_word
read_word-append [] rest h a = absurd (omega arith)
read_word-append (x ∷ xs) rest h (e, a) =
    let off : is_space x ≡ false = ground arith in
    rw (skip_space_word x (xs ++ b' ' ∷ rest) off, read_word)
      (ap some (span-append is_space (x ∷ xs) (b' ') rest (e, a) refl))

read_int-digits :
    (x : ℕ) (xs rest : List ℕ)
    → All is_digit (x ∷ xs)
    → number 0 (x ∷ xs) < 2 ^ 31
    → read_int ((x ∷ xs) ++ b' ' ∷ rest) ≡ some (number 0 (x ∷ xs), b' ' ∷ rest)
unfolding read_int
read_int-digits x xs rest (h, a) small =
    let off : is_space x ≡ false = ground arith in
    let whole =
      span-append (λ c. not (is_digit c)) (x ∷ xs) (b' ') rest
        (All-mono is_digit (λ c. not (not (is_digit c))) (x ∷ xs) (λ c e. ground arith) (h, a))
        refl in
    ap (λ f. spelled_int (span (λ c. not (is_digit c)) f))
      (skip_space_word x (xs ++ b' ' ∷ rest) off)
    ∙ ap spelled_int whole
    ∙ if_true none (lt→ltb _ _ small)

read_int-to_string :
    (n : ℕ) (rest : List ℕ)
    → n < 2 ^ 31
    → read_int (b' ' ∷ (to_string n ++ b' ' ∷ rest)) ≡ some (n, b' ' ∷ rest)
unfolding read_int skip_space
read_int-to_string n rest small =
    let (c, cs, e) = to_string_cons n in
    let value : number 0 (c ∷ cs) ≡ n = ap (number 0) (sym e) ∙ number-to_string n (omega arith) in
    let a = subst (All is_digit) e (to_string-All n) in
    ap (λ t. read_int (t ++ b' ' ∷ rest)) e
    ∙ read_int-digits c cs rest a (rw value small)
    ∙ ap (λ k. some (k, b' ' ∷ rest)) value

read_operation-dump :
    (o : FileOperation) (rest : List ℕ)
    → Writable o
    → read_operation (o.key ++ b' ' ∷ (to_string o.node ++ b' ' ∷ (o.op ∷ rest))) ≡ some (o, rest)
unfolding read_operation read_char skip_space
read_operation-dump o rest w =
    let after_key = b' ' ∷ (to_string o.node ++ b' ' ∷ (o.op ∷ rest)) in
    let key : read_word (o.key ++ after_key) ≡ some (o.key, after_key) =
      read_word-append o.key (to_string o.node ++ b' ' ∷ (o.op ∷ rest)) w.some_byte w.word in
    let node = read_int-to_string o.node (o.op ∷ rest) w.int_node in
    let op : read_char (b' ' ∷ o.op ∷ rest) ≡ some (o.op, rest) =
      rw (skip_space_word o.op rest w.visible, read_char) refl in
    rw (key, read_operation) (rw (node, op) refl)

pub load_from-some :
    (rounds : ℕ) (file rest : List ℕ) (o : FileOperation)
    → read_operation file ≡ some (o, rest)
    → load_from (suc rounds) file ≡ o ∷ load_from rounds rest
unfolding load_from
load_from-some rounds file rest o e = rw (e, load_from) refl

-- A newline before an operation is skipped.
newline_skipped : (file : List ℕ) → read_operation (10 ∷ file) ≡ read_operation file
unfolding read_operation read_word skip_space
newline_skipped file = refl

load_after_newline :
    (rounds : ℕ) (os : List FileOperation)
    → AllWritable os
    → length (dump_operation_set_to_file os) < rounds
    → load_from rounds (10 ∷ dump_operation_set_to_file os) ≡ os
unfolding load_from dump_operation_set_to_file read_operation read_word skip_space
load_after_newline zero os w h = absurd (omega arith)
load_after_newline (suc rounds) [] w h = refl
load_after_newline (suc rounds) (o ∷ os) (w, ws) h =
    let rest = 10 ∷ dump_operation_set_to_file os in
    let short : length (dump_operation_set_to_file os) < rounds = omega (
      arith,
      h,
      length-append {0} o.key (b' ' ∷ (to_string o.node ++ b' ' ∷ (o.op ∷ rest))),
      length-append {0} (to_string o.node) (b' ' ∷ (o.op ∷ rest)),
    ) in
    load_from-some rounds (10 ∷ dump_operation_set_to_file (o ∷ os)) rest o
      (newline_skipped (dump_operation_set_to_file (o ∷ os)) ∙ read_operation-dump o rest w)
    ∙ ap (◌∷◌ o) (load_after_newline rounds os ws short)

-- Operations whose keys are words, whose nodes are `int` numbers without a sign and whose `op` is
-- no space are read back from the file that they have been written to.
pub load_operation_set_from_file-dump_operation_set_to_file :
    (os : List FileOperation)
    → AllWritable os
    → load_operation_set_from_file (dump_operation_set_to_file os) ≡ os
unfolding load_operation_set_from_file dump_operation_set_to_file
load_operation_set_from_file-dump_operation_set_to_file [] w = refl
load_operation_set_from_file-dump_operation_set_to_file (o ∷ os) (w, ws) =
    let rest = 10 ∷ dump_operation_set_to_file os in
    let file = dump_operation_set_to_file (o ∷ os) in
    let whole = length-append {0} o.key (b' ' ∷ (to_string o.node ++ b' ' ∷ (o.op ∷ rest))) in
    let tail = length-append {0} (to_string o.node) (b' ' ∷ (o.op ∷ rest)) in
    let size : length file ≡ suc (length file - 1) = omega (arith, whole) in
    ap (λ n. load_from n file) size
    ∙ load_from-some (length file - 1) file rest o (read_operation-dump o rest w)
    ∙ ap (◌∷◌ o) (load_after_newline (length file - 1) os ws (omega (arith, whole, tail)))
