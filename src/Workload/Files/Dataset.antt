-- ===== src/Workload/Files/Dataset.antt =====
-- The keys of the data set are read back.
use twig_kv.Common.{
  ℕ, zero, suc, ◌+◌, ◌≡◌, ◌<◌, ◌≤◌, ◌^◌, refl, ap, sym, ◌∙◌, Bool, false, not, List, [], ◌∷◌, ◌++◌,
  some, arith, length, get_elem?, ◌==◌, map, append_assoc, append-nil, to_string_cons, All-append,
  All-mono, subst, ap₂, to_string, number, number-to_string, to_string-All, is_space, is_digit, All,
  span-append, skip_space_word,
}
use twig_kv.Workload.Files.{lines, first_word, keys_of, read_keys_from_file, write_dataset}

-- A byte that is no newline.
abbrev pub inline : ℕ → Bool
inline c = not (c == 10)

lines-append :
    (xs cur rest : List ℕ)
    → All inline xs
    → lines (xs ++ 10 ∷ rest) cur ≡ (cur ++ xs) ∷ lines rest []
unfolding lines
lines-append [] cur rest a = ap (λ l. l ∷ lines rest []) (sym (append-nil cur))
lines-append (x ∷ xs) cur rest (h, a) =
    let off : (x == 10) ≡ false = ground arith in
    rw (off, lines)
      (lines-append xs (cur ++ x ∷ []) rest a
        ∙ ap (λ l. l ∷ lines rest []) (append_assoc cur (x ∷ []) xs))

-- The numbers from `i` on.
unfoldable pub count_up : (rounds i : ℕ) → List ℕ
count_up zero i = []
count_up (suc rounds) i = i ∷ count_up rounds (i + 1)

pub length-count_up : (rounds i : ℕ) → length (count_up rounds i) ≡ rounds
unfolding count_up
length-count_up zero i = refl
length-count_up (suc rounds) i = ap suc (length-count_up rounds (i + 1))

pub get_elem?-count_up :
    (rounds i x : ℕ) → x < rounds → get_elem? (count_up rounds i) x ≡ some (i + x)
unfolding count_up
get_elem?-count_up zero i x h = elim h [ ]
get_elem?-count_up (suc rounds) i zero h = ap some (omega arith)
get_elem?-count_up (suc rounds) i (suc x) h =
    get_elem?-count_up rounds (i + 1) x (omega arith) ∙ ap some (omega arith)

first_word-cons :
    (x : ℕ) (xs rest : List ℕ)
    → All is_digit (x ∷ xs)
    → first_word ((x ∷ xs) ++ b' ' ∷ rest) ≡ some (x ∷ xs)
unfolding first_word
first_word-cons x xs rest (h, a) =
    let no_space : is_space x ≡ false = ground arith in
    let whole =
      span-append is_space (x ∷ xs) (b' ') rest
        (All-mono is_digit (λ c. not (is_space c)) (x ∷ xs) (λ c e. ground arith) (h, a)) refl in
    rw (skip_space_word x (xs ++ b' ' ∷ rest) no_space, first_word) (ap (λ r. some r.0) whole)

first_word-to_string :
    (n : ℕ) (rest : List ℕ) → first_word (to_string n ++ b' ' ∷ rest) ≡ some (to_string n)
first_word-to_string n rest =
    let (c, cs, e) = to_string_cons n in
    let a = subst (All is_digit) e (to_string-All n) in rw e (first_word-cons c cs rest a)

keys_of-some :
    (line : List ℕ) (rest : List (List ℕ)) (key : List ℕ)
    → first_word line ≡ some key
    → keys_of (line ∷ rest) ≡ key ∷ keys_of rest
keys_of-some line rest key e = rw (e, keys_of) refl

keys_of_dataset :
    (value : List ℕ) (rounds i : ℕ)
    → All inline value
    → read_keys_from_file (write_dataset rounds i value) ≡ map to_string (count_up rounds i)
unfolding read_keys_from_file write_dataset count_up lines
keys_of_dataset value zero i v = refl
keys_of_dataset value (suc rounds) i v =
    let line = to_string i ++ b' ' ∷ value in
    let inside : All inline line =
      All-append inline (to_string i) (b' ' ∷ value)
        (All-mono is_digit inline (to_string i) (λ c e. ground arith) (to_string-All i))
        (refl, v) in
    let rest = write_dataset rounds (i + 1) value in
    let split : lines (to_string i ++ b' ' ∷ (value ++ 10 ∷ rest)) [] ≡ line ∷ lines rest [] =
      ap (λ t. lines t []) (sym (append_assoc (to_string i) (b' ' ∷ value) (10 ∷ rest)))
      ∙ lines-append line [] rest inside in
    ap keys_of split
    ∙ keys_of-some line (lines rest []) (to_string i) (first_word-to_string i value)
    ∙ ap (◌∷◌ (to_string i)) (keys_of_dataset value rounds (i + 1) v)

numbers_of_keys :
    (rounds i : ℕ)
    → i + rounds ≤ 10 ^ 20
    → map (number 0) (map to_string (count_up rounds i)) ≡ count_up rounds i
unfolding count_up
numbers_of_keys zero i h = refl
numbers_of_keys (suc rounds) i h =
    ap₂ ◌∷◌ (number-to_string i (omega arith)) (numbers_of_keys rounds (i + 1) (omega arith))

-- The keys that are read from a data set that has been written with a value without a newline are
-- the numerals of the numbers from 1 to the number of keys, in this order, and they spell these
-- numbers if these have 20 digits at most.
pub read_keys_from_file-write_dataset :
    (number_of_keys : ℕ) (value : List ℕ)
    → All inline value
    → number_of_keys < 10 ^ 20
    → (read_keys_from_file (write_dataset number_of_keys 1 value)
        ≡ map to_string (count_up number_of_keys 1))
      × (map (number 0) (read_keys_from_file (write_dataset number_of_keys 1 value))
          ≡ count_up number_of_keys 1)
read_keys_from_file-write_dataset number_of_keys value v h =
    let keys = keys_of_dataset value number_of_keys 1 v in
    (keys, ap (map (number 0)) keys ∙ numbers_of_keys number_of_keys 1 (omega arith))
