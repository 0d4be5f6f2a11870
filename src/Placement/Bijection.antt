-- ===== src/Placement/Bijection.antt =====
-- Keys 1 to keys_per_node * NUM_NODES go one to one to the slots of the nodes; the keys that are
-- left over go behind the slots of the first node.
use twig_kv.Common.{
  div-add, mod-add, div_step, mod_step, ℕ, ◌+◌, ◌-◌, ◌*◌, ◌/◌, ◌%◌, ◌^◌, ◌<◌, ◌≤◌, ◌≡◌, ◌≢◌, sym,
  ◌∙◌, ok, arith, dec_le, ltb, if◌then◌else◌,
}
use twig_kv.Config.{Configuration}
use twig_kv.Placement.{Placement, keys_per_node, calculate_node_and_offset}

-- The sizes that an `int` field can hold, with at least one key for each node.
pub record IsSized (c : Configuration) : Type 0 where
  pub nodes : 0 < c.num_nodes
  pub pairs : c.num_key_value_pairs < 2 ^ 31
  pub filled : c.num_nodes ≤ c.num_key_value_pairs

pub keys_per_node_pos : (c : Configuration) → IsSized c → 0 < keys_per_node c
keys_per_node_pos c v = grind arith

pub covered_le :
    (c : Configuration) → IsSized c → keys_per_node c * c.num_nodes ≤ c.num_key_value_pairs
covered_le c v = grind arith

-- A key that the slots cover: its slot.
pub calculate_node_and_offset_covered :
    (c : Configuration)
    → IsSized c
    → (key : ℕ) → 1 ≤ key
    → key ≤ keys_per_node c * c.num_nodes
    → calculate_node_and_offset c key
      ≡ ok (record {
        node_index = (key - 1) / keys_per_node c;
        offset = (key - 1) % keys_per_node c;
      })
unfolding calculate_node_and_offset
calculate_node_and_offset_covered c v key lo hi = ground (arith, keys_per_node_pos c v)

-- A key that is left over.
pub calculate_node_and_offset_over :
    (c : Configuration)
    → IsSized c
    → (key : ℕ) → keys_per_node c * c.num_nodes < key
    → calculate_node_and_offset c key
      ≡ ok (record {
        node_index = 0;
        offset = keys_per_node c + (key - keys_per_node c * c.num_nodes);
      })
unfolding calculate_node_and_offset
calculate_node_and_offset_over c v key hi = ground arith

-- The key whose slot this is.
abbrev pub key_of : Configuration → Placement → ℕ
key_of c p = p.node_index * keys_per_node c + p.offset + 1

-- With at least one key for each node and sizes that fit in an `int`, every key from 1 to
-- keys_per_node * NUM_NODES gets a slot of one of the nodes, from which the key can be computed
-- back.
pub calculate_node_and_offset-key_of :
    (c : Configuration)
    → IsSized c
    → (key : ℕ) → 1 ≤ key
    → key ≤ keys_per_node c * c.num_nodes
    → (p : Placement) × (calculate_node_and_offset c key ≡ ok p)
      × (p.node_index < c.num_nodes)
      × (p.offset < keys_per_node c)
      × (key_of c p ≡ key)
calculate_node_and_offset-key_of c v key lo hi = (
  record { node_index = (key - 1) / keys_per_node c; offset = (key - 1) % keys_per_node c },
  calculate_node_and_offset_covered c v key lo hi,
  grind arith,
  grind arith,
  grind arith,
)

-- With at least one key for each node and sizes that fit in an `int`, every slot of every node
-- is the slot of a key: the map is onto.
pub key_of-calculate_node_and_offset :
    (c : Configuration)
    → IsSized c
    → (p : Placement) → p.node_index < c.num_nodes
    → p.offset < keys_per_node c
    → calculate_node_and_offset c (key_of c p) ≡ ok p
key_of-calculate_node_and_offset c v p n o =
    calculate_node_and_offset_covered c v (key_of c p) (omega arith) (grind arith)
    ∙ ground (
      arith,
      div-add (keys_per_node c) p.node_index p.offset o,
      mod-add (keys_per_node c) p.node_index p.offset o,
    )

-- The key is recovered from its slot, also when it is a leftover one.
recovered : Configuration → Placement → ℕ
recovered c p =
    if ltb p.offset (keys_per_node c)
    then key_of c p
    else keys_per_node c * c.num_nodes + (p.offset - keys_per_node c)

recovered_lem :
    (c : Configuration)
    → IsSized c
    → (key : ℕ) (p : Placement) → 1 ≤ key
    → calculate_node_and_offset c key ≡ ok p
    → recovered c p ≡ key
unfolding recovered
recovered_lem c v key p lo e = elim (dec_le key (keys_per_node c * c.num_nodes)) [
  | yes h ↦
      let (q, eq, _, inside, back) = calculate_node_and_offset-key_of c v key lo h in ground arith
  | no h ↦ ground (arith, calculate_node_and_offset_over c v key (omega arith))
]

-- With at least one key for each node and sizes that fit in an `int`, no two keys from 1 on
-- share a slot, those included that are left over when the keys are divided among the nodes.
pub calculate_node_and_offset_injective :
    (c : Configuration)
    → IsSized c
    → (a b : ℕ) (p : Placement) → 1 ≤ a
    → 1 ≤ b
    → calculate_node_and_offset c a ≡ ok p
    → calculate_node_and_offset c b ≡ ok p
    → a ≡ b
calculate_node_and_offset_injective c v a b p la lb ea eb =
    sym (recovered_lem c v a p la ea) ∙ recovered_lem c v b p lb eb

-- The next key of the same node has the next slot.
pub next_slot :
    (c : Configuration)
    → IsSized c
    → (key : ℕ) → 1 ≤ key
    → key + 1 ≤ keys_per_node c * c.num_nodes
    → key % keys_per_node c ≢ 0
    → (p : Placement) × (calculate_node_and_offset c key ≡ ok p)
      × (calculate_node_and_offset c (key + 1) ≡ ok (record p { offset = p.offset + 1 }))
next_slot c v key lo hi h =
    let d = div_step (keys_per_node c) key h (keys_per_node_pos c v) lo in
    let m = mod_step (keys_per_node c) key h (keys_per_node_pos c v) lo in
    let back : key + 1 - 1 ≡ key = omega arith in
    (
      record { node_index = (key - 1) / keys_per_node c; offset = (key - 1) % keys_per_node c },
      calculate_node_and_offset_covered c v key lo (omega arith),
      calculate_node_and_offset_covered c v (key + 1) (omega arith) hi ∙ ground arith,
    )
