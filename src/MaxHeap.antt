-- ===== src/MaxHeap.antt =====
-- `MaxHeap` of src/heap.h. The order of `std::priority_queue` between nodes with the same number of
-- free units is not fixed by the standard: here the one that was added last comes first.
pub mod Drain
use twig_kv.Common.{
  ℕ, ◌+◌, List, [], ◌∷◌, Bool, true, false, Outcome, ok, panic, ltb, if◌then◌else◌, sub64,
}

pub record Node : Type 0 where
  pub free_nodes : ℕ
  pub index : ℕ

-- `operator<`
abbrev pub less : Node → Node → Bool
less a b = ltb a.free_nodes b.free_nodes

-- `std::priority_queue<Node>`, with the top at the head.
abbrev pub MaxHeap : Type 0
MaxHeap = List Node

unfoldable pub push : Node → MaxHeap → MaxHeap
push n [] = n ∷ []
push n (m ∷ ms) = if less n m then m ∷ push n ms else n ∷ m ∷ ms

-- `add`
unfoldable pub add : ℕ → ℕ → MaxHeap → MaxHeap
unfolding push
add free_nodes index heap = push (record { free_nodes = free_nodes; index = index }) heap

-- `getNode`: `free_nodes - 1` is an unsigned subtraction.
unfoldable pub get_node : MaxHeap → Outcome (ℕ × MaxHeap)
unfolding push
get_node [] = panic
get_node (max_node ∷ pq) =
    let left = sub64 max_node.free_nodes 1 in
    ok (
      max_node.index,
      if ltb 0 left then push (record { free_nodes = left; index = max_node.index }) pq else pq,
    )

-- `isEmpty`
unfoldable pub is_empty : MaxHeap → Bool
is_empty [] = true
is_empty (n ∷ ns) = false
