-- ===== src/Workload/Split.antt =====
-- `singleNodeHotSetDataTo80SecondNode20Other` of src/operations.cpp: the threads share the operations,
-- and those of the hot threads go to node 2. `thread_ids` is the shuffled list of the threads,
-- `num_hot_keys` comes from a `double` field, and `rand` is the sequence of random numbers.
use mathlib.Core.List.{flatten}
use twig_kv.Common.{
  ℕ, zero, suc, ◌+◌, ◌/◌, ◌%◌, ◌≡◌, ◌≤◌, ◌<◌, refl, ap, ◌∙◌, List, [], ◌∷◌, ◌++◌, Outcome, ok,
  undefined, ◌>>=◌, ltb, ◌==◌, if◌then◌else◌, length, arith, tally, Bool-cases, inl, inr, bind_ok,
  if_false, false,
}
use twig_kv.Config.{Configuration}
use twig_kv.Workload.Generate.{Operation, nth, remainder, new_key_set}
use twig_kv.Workload.Generate.Order.{occurs}
use twig_kv.Workload.Generate.Picks.{remainder_lem, nth_lem}

-- The operations of one thread, from the random number `r` on.
unfoldable pub thread_operations :
    (key_set : List ℕ) (num_hot_keys node rounds r : ℕ) (rand : ℕ → ℕ) → Outcome (List Operation)
thread_operations key_set num_hot_keys node zero r rand = ok []
thread_operations key_set num_hot_keys node (suc rounds) r rand = do
  x ← remainder (rand r) num_hot_keys
  key ← nth key_set x
  rest ← thread_operations key_set num_hot_keys node rounds (r + 1) rand
  ok (record { key = key; node = node } ∷ rest)

-- `isHotThread ? 2 : (rand() % 2 == 0 ? 1 : 3)`
abbrev pub node_of_thread : Configuration → ℕ → ℕ → ℕ
node_of_thread c id random = if ltb id c.hot_thread then 2 else if random % 2 == 0 then 1 else 3

unfoldable pub threads_operations :
    Configuration
    → (key_set : List ℕ) (num_hot_keys ops_per_thread : ℕ) (ids : List ℕ) (r : ℕ) (rand : ℕ → ℕ)
    → Outcome (List Operation)
unfolding thread_operations
threads_operations c key_set num_hot_keys ops_per_thread [] r rand = ok []
threads_operations c key_set num_hot_keys ops_per_thread (id ∷ ids) r rand =
    let next = if ltb id c.hot_thread then r else r + 1 in
    do
      os ←
          thread_operations key_set num_hot_keys (node_of_thread c id (rand r)) ops_per_thread next
            rand
      rest ←
          threads_operations c key_set num_hot_keys ops_per_thread ids (next + ops_per_thread) rand
      ok (os ++ rest)

unfoldable pub single_node_hot_set_data_to_80_second_node_20_other :
    List ℕ
    → Configuration
    → (num_hot_keys : ℕ) (thread_ids : List ℕ) → (ℕ → ℕ)
    → Outcome (List Operation)
unfolding threads_operations
single_node_hot_set_data_to_80_second_node_20_other keys c num_hot_keys thread_ids rand =
    if c.hot_thread + c.rdma_thread == 0
    then undefined
    else threads_operations c (new_key_set keys) num_hot_keys
        (c.total_operations / (c.hot_thread + c.rdma_thread)) thread_ids 0 rand

abbrev pub to_node : ℕ → Operation → ℕ
to_node n o = if o.node == n then 1 else 0

-- An operation for one of these keys.
abbrev pub known : List ℕ → Operation → ℕ
known key_set o = if ltb 0 (occurs o.key key_set) then 1 else 0

-- The operations of one thread: as many as are due, all for keys of the set, and all for the same
-- node from 1 to 3, which is node 2 exactly if the thread is a hot one.
pub record IsShare (key_set : List ℕ) (c : Configuration) (ops_per_thread id : ℕ)
    (os : List Operation) : Type 0 where
  pub node : ℕ
  pub size : length os ≡ ops_per_thread
  pub keys : tally (known key_set) os ≡ ops_per_thread
  pub nodes : tally (to_node node) os ≡ ops_per_thread
  pub low : 1 ≤ node
  pub high : node ≤ 3
  pub hot : (node == 2) ≡ ltb id c.hot_thread

-- A share for each thread, in their order.
abbrev pub IsSharedOut : List ℕ → Configuration → ℕ → List ℕ → List (List Operation) → Type 0
IsSharedOut key_set c ops_per_thread [] [] = Unit {0}
IsSharedOut key_set c ops_per_thread [] (os ∷ shares) = ⊥
IsSharedOut key_set c ops_per_thread (id ∷ ids) [] = ⊥
IsSharedOut key_set c ops_per_thread (id ∷ ids) (os ∷ shares) =
    IsShare key_set c ops_per_thread id os × IsSharedOut key_set c ops_per_thread ids shares

node_of_thread_lem :
    (c : Configuration) (id random : ℕ)
    → let node = node_of_thread c id random in
      (1 ≤ node) × (node ≤ 3) × ((node == 2) ≡ ltb id c.hot_thread)
node_of_thread_lem c id random = elim (Bool-cases (ltb id c.hot_thread)) [
  | inl hot ↦ rw hot (omega arith, omega arith, refl)
  | inr cold ↦ elim (Bool-cases (random % 2 == 0)) [
    | inl even ↦ rw (cold, even) (omega arith, omega arith, refl)
    | inr odd ↦ rw (cold, odd) (omega arith, omega arith, refl)
  ]
]

module _ (key_set : List ℕ) (num_hot_keys : ℕ) (some_key : 0 < num_hot_keys)
    (enough : num_hot_keys ≤ length key_set) (rand : ℕ → ℕ) where
  thread_operations_lem :
      (node rounds r : ℕ)
      → (os : List Operation) × (thread_operations key_set num_hot_keys node rounds r rand ≡ ok os)
        × (length os ≡ rounds)
        × (tally (known key_set) os ≡ rounds)
        × ((n : ℕ) → tally (to_node n) os ≡ (if node == n then rounds else 0))
  unfolding thread_operations
  thread_operations_lem node zero r = ([], refl, refl, refl, λ n. ground arith)
  thread_operations_lem node (suc rounds) r =
      let (e₁, lt) = remainder_lem (rand r) num_hot_keys some_key in
      let (k, e₂, o) = nth_lem key_set (rand r % num_hot_keys) (omega (arith, lt, enough)) in
      let (os, run, size, keys, nodes) = thread_operations_lem node rounds (r + 1) in
      (
        record { key = k; node = node } ∷ os,
        bind_ok _ e₁ ∙ bind_ok _ e₂ ∙ bind_ok _ run,
        ap suc size,
        ground (arith, keys, o),
        λ n. ground (arith, nodes n),
      )

  threads_operations_lem :
      (c : Configuration) (ops_per_thread : ℕ) (ids : List ℕ) (r : ℕ)
      → (shares : List (List Operation)) × (threads_operations c key_set num_hot_keys ops_per_thread
            ids r rand
          ≡ ok (flatten shares))
        × IsSharedOut key_set c ops_per_thread ids shares
  unfolding threads_operations flatten
  threads_operations_lem c ops_per_thread [] r = ([], refl, tt)
  threads_operations_lem c ops_per_thread (id ∷ ids) r =
      let next = if ltb id c.hot_thread then r else r + 1 in
      let node = node_of_thread c id (rand r) in
      let (low, high, hot) = node_of_thread_lem c id (rand r) in
      let (os, run, size, keys, nodes) = thread_operations_lem node ops_per_thread next in
      let (shares, run', shared) =
        threads_operations_lem c ops_per_thread ids (next + ops_per_thread) in
      (
        os ∷ shares,
        bind_ok _ run ∙ bind_ok _ run',
        (
          record {
            node = node;
            size = size;
            keys = keys;
            nodes = ground (arith, nodes node);
            low = low;
            high = high;
            hot = hot;
          },
          shared,
        ),
      )

-- With some thread, and some hot keys, no more than the middle third of the keys has: whatever the
-- random numbers are, the result is made of a share for each thread, in the order of the list. Each
-- share has the same number of operations, the total divided by the number of threads, all for keys
-- of the middle third and all for one node: node 2 for a hot thread, and node 1 or 3 for another.
pub single_node_hot_set_data_to_80_second_node_20_other_lem :
    (keys : List ℕ) (c : Configuration) (num_hot_keys : ℕ) (thread_ids : List ℕ) (rand : ℕ → ℕ)
    → 0 < c.hot_thread + c.rdma_thread
    → 0 < num_hot_keys
    → num_hot_keys ≤ length (new_key_set keys)
    → (shares : List (List Operation)) × (single_node_hot_set_data_to_80_second_node_20_other keys c
          num_hot_keys thread_ids rand
        ≡ ok (flatten shares))
      × IsSharedOut
          (new_key_set keys)
          c
          (c.total_operations / (c.hot_thread + c.rdma_thread))
          thread_ids
          shares
unfolding single_node_hot_set_data_to_80_second_node_20_other
single_node_hot_set_data_to_80_second_node_20_other_lem keys c num_hot_keys thread_ids rand
      some_thread some_key enough =
    let ops_per_thread = c.total_operations / (c.hot_thread + c.rdma_thread) in
    let (shares, run, shared) =
      threads_operations_lem (new_key_set keys) num_hot_keys some_key enough rand c ops_per_thread
        thread_ids 0 in
    let some : (c.hot_thread + c.rdma_thread == 0) ≡ false = ground arith in
    (shares, if_false _ some ∙ run, shared)
