-- ===== src/Placement.antt =====
-- src/rdma_reads.cpp: where a key lives when the servers share their memory without an index, and
-- the one-sided writes and reads of its block.
pub mod Bijection
pub mod Blocks
use twig_kv.Common.{
  ℕ, ◌+◌, ◌-◌, ◌*◌, ◌/◌, ◌%◌, ◌^◌, ◌<◌, ◌≤◌, Bool, List, Outcome, ok, panic, undefined, ◌>>=◌, ltb,
  ◌==◌, if◌then◌else◌, u64, sub64,
}
use twig_kv.Config.{Configuration}

pub record Placement : Type 0 where
  pub node_index : ℕ
  pub offset : ℕ

-- `static_cast<int>`: the low 32 bits. A pattern from 2 ^ 31 on stands for a negative number.
abbrev pub to_int : ℕ → ℕ
to_int n = n % 2 ^ 32

-- `NUM_KEY_VALUE_PAIRS / NUM_NODES`
abbrev pub keys_per_node : Configuration → ℕ
keys_per_node c = c.num_key_value_pairs / c.num_nodes

-- The parameter `server_start_index` is not read. A division by zero is undefined behaviour.
unfoldable pub calculate_node_and_offset : Configuration → ℕ → Outcome Placement
calculate_node_and_offset c key =
    if c.num_nodes == 0
    then undefined
    else if ltb (keys_per_node c * c.num_nodes) key
    then ok (record {
      node_index = 0;
      offset = keys_per_node c + (key - keys_per_node c * c.num_nodes);
    })
    else if keys_per_node c == 0
    then undefined
    else ok (record {
      node_index = to_int (sub64 key 1 / keys_per_node c);
      offset = sub64 key 1 % keys_per_node c;
    })

-- What the servers' registered memory does, by the RDMA library (the submodule third_party/RDMA):
-- a one-sided write of `bs` at byte `off` of server `s` changes those bytes and no other, and a
-- read of `n` bytes at `off` returns the bytes from there on.
pub record OneSided : Type 1 where
  pub Memory : Type 0
  pub byte : Memory → ℕ → ℕ → ℕ
  pub write : Memory → ℕ → ℕ → List ℕ → Memory
  pub read : Memory → ℕ → ℕ → ℕ → List ℕ

-- `BLKSZ`
abbrev pub blksz : ℕ
blksz = 4096

module _ (net : OneSided) where
  open net use {Memory, write, read}

  -- The entry of `rdma_nodes` under `node + server_start_index` is the server with that index.
  -- The buffer is the whole span, and the offset goes to the library as it was computed.
  unfoldable pub write_correct_node : Configuration → ℕ → Memory → ℕ → List ℕ → Outcome Memory
  write_correct_node c server_start_index m key buffer_data = do
    p ← calculate_node_and_offset c key
    ok (write m (p.node_index + server_start_index) p.offset buffer_data)

  -- The synchronous branch of `rdma_reader_thread`: the block that is copied to `buffer_data`.
  unfoldable pub read_correct_node : Configuration → ℕ → Memory → ℕ → Outcome (List ℕ)
  read_correct_node c server_start_index m key = do
    p ← calculate_node_and_offset c key
    ok (read m (p.node_index + server_start_index) p.offset blksz)
