-- ===== src/MaxHeap/Drain.antt =====
-- A heap of nodes hands out each node's units one by one, from the fullest node on.
use twig_kv.Common.{
  ℕ, ◌+◌, ◌-◌, ◌^◌, ◌<◌, ◌≤◌, ◌≡◌, refl, false, [], ◌∷◌, ok, arith, ◌==◌, ltb, if◌then◌else◌, sub64,
}
use twig_kv.MaxHeap.{Node, MaxHeap, push, add, get_node, is_empty}

-- The nodes are in falling order, and each has a unit to give and a 64-bit count.
abbrev pub Below : ℕ → MaxHeap → Type 0
Below b [] = Unit {0}
Below b (n ∷ ns) = (n.free_nodes ≤ b) × (1 ≤ n.free_nodes) × Below n.free_nodes ns

abbrev pub IsHeap : MaxHeap → Type 0
IsHeap h = Below (2 ^ 64 - 1) h

-- The units that node `i` has left, and those of all nodes.
abbrev pub units : ℕ → MaxHeap → ℕ
units i [] = 0
units i (n ∷ ns) = (if n.index == i then n.free_nodes else 0) + units i ns

abbrev pub total : MaxHeap → ℕ
total [] = 0
total (n ∷ ns) = n.free_nodes + total ns

Below-push :
    (b : ℕ) (n : Node) (h : MaxHeap)
    → n.free_nodes ≤ b
    → 1 ≤ n.free_nodes
    → Below b h
    → Below b (push n h)
unfolding push
Below-push b n [] lo hi v = (lo, hi, tt)
Below-push b n (m ∷ ms) lo hi v = ground (arith, Below-push m.free_nodes n ms)

units-push : (i : ℕ) (n : Node) (h : MaxHeap) → units i (push n h) ≡ units i (n ∷ h)
unfolding push
units-push i n [] = refl
units-push i n (m ∷ ms) = ground (arith, units-push i n ms)

total-push : (n : Node) (h : MaxHeap) → total (push n h) ≡ n.free_nodes + total h
unfolding push
total-push n [] = refl
total-push n (m ∷ ms) = ground (arith, total-push n ms)

Below-mono : (a b : ℕ) (h : MaxHeap) → a ≤ b → Below a h → Below b h
Below-mono a b [] le v = tt
Below-mono a b (n ∷ ns) le v = (omega arith, v.1, v.2)

-- `add` of a node with a unit to give and a 64-bit count keeps the heap, and adds the node's
-- units to those of its index and of no other.
pub add-IsHeap :
    (free_nodes index : ℕ) (h : MaxHeap)
    → 1 ≤ free_nodes
    → free_nodes < 2 ^ 64
    → IsHeap h
    → IsHeap (add free_nodes index h)
      × ((i : ℕ)
          → units i (add free_nodes index h) ≡ (if index == i then free_nodes else 0) + units i h)
unfolding add
add-IsHeap free_nodes index h lo hi v = (
  Below-push _ _ h (omega arith) lo v,
  λ i. units-push i (record { free_nodes = free_nodes; index = index }) h,
)

abbrev pub IsTop : ℕ → MaxHeap → Type 0
IsTop f [] = Unit {0}
IsTop f (n ∷ ns) = (n.free_nodes ≤ f) × IsTop f ns

Below-IsTop : (b f : ℕ) (h : MaxHeap) → b ≤ f → Below b h → IsTop f h
Below-IsTop b f [] le v = tt
Below-IsTop b f (n ∷ ns) le v = (omega arith, Below-IsTop n.free_nodes f ns (omega arith) v.2)

-- What is left of a node that had `f` units after one is taken, back in the heap.
abbrev pub put_back : ℕ → ℕ → MaxHeap → MaxHeap
put_back left index ns =
    if ltb 0 left then push (record { free_nodes = left; index = index }) ns else ns

Below-put_back :
    (left index : ℕ) (ns : MaxHeap)
    → Below (left + 1) ns
    → Below (left + 1) (put_back left index ns)
Below-put_back left index ns v =
    ground (arith, Below-push (left + 1) (record { free_nodes = left; index = index }) ns)

total-put_back : (left index : ℕ) (ns : MaxHeap) → total (put_back left index ns) ≡ left + total ns
total-put_back left index ns =
    ground (arith, total-push (record { free_nodes = left; index = index }) ns)

units-put_back :
    (i left index : ℕ) (ns : MaxHeap)
    → units i (put_back left index ns) ≡ (if index == i then left else 0) + units i ns
units-put_back i left index ns =
    ground (arith, units-push i (record { free_nodes = left; index = index }) ns)

sub64-one : (f : ℕ) → 1 ≤ f → f < 2 ^ 64 → sub64 f 1 ≡ f - 1
sub64-one f lo hi = omega arith

-- `getNode` on a heap that is not empty, in which every node has a unit to give, hands out one
-- unit of a node that has the most units, takes it from that node and from no other, and leaves
-- such a heap.
pub get_node_takes-IsTop :
    (h : MaxHeap)
    → IsHeap h
    → is_empty h ≡ false
    → (i : ℕ) × (h' : MaxHeap) × (top : ℕ) × (get_node h ≡ ok (i, h'))
      × IsHeap h'
      × IsTop top h
      × (top ≤ units i h)
      × (total h' + 1 ≡ total h)
      × ((j : ℕ) → units j h' + (if j == i then 1 else 0) ≡ units j h)
unfolding get_node is_empty
get_node_takes-IsTop [] v e = absurd cc
get_node_takes-IsTop (n ∷ ns) v e =
    let left = n.free_nodes - 1 in
    let back : left + 1 ≡ n.free_nodes = omega (arith, v.0, v.1) in
    let below : Below (left + 1) (put_back left n.index ns) =
      Below-put_back left n.index ns (rw back v.2) in
    (
      n.index,
      put_back left n.index ns,
      n.free_nodes,
      rw (sub64-one n.free_nodes v.1 (omega (arith, v.0))) refl,
      Below-mono (left + 1) (2 ^ 64 - 1) (put_back left n.index ns) (omega (arith, back, v.0))
          below,
      (omega arith, Below-IsTop n.free_nodes n.free_nodes ns (omega arith) v.2),
      ground arith,
      omega (arith, back, total-put_back left n.index ns),
      λ j. ground (arith, back, v.1, units-put_back j left n.index ns),
    )
