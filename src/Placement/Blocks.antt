-- ===== src/Placement/Blocks.antt =====
-- What the block writes and reads of `write_correct_node` and `read_correct_node` do to each other
-- in the servers' memory.
use twig_kv.Common.{
  ℕ, zero, suc, ◌+◌, ◌-◌, ◌*◌, ◌%◌, ◌<◌, ◌≤◌, ◌≡◌, ◌≢◌, refl, sym, ◌∙◌, ◌&&◌, List, ok, ◌>>=◌,
  arith, ltb, leb, ◌==◌, if◌then◌else◌, length, get_or, list_ext,
}
use twig_kv.Config.{Configuration}
use twig_kv.Placement.{keys_per_node, OneSided, blksz, write_correct_node, read_correct_node}
use twig_kv.Placement.Bijection.{IsSized, next_slot}

-- What the one-sided operations promise: a write changes the bytes that it covers and no other, and
-- a read returns the bytes that stand there.
pub record OneSidedLaws (net : OneSided) : Type 0 where
  pub byte-write :
      (m : net.Memory) (s off : ℕ) (bs : List ℕ) (t a : ℕ)
      → net.byte (net.write m s off bs) t a ≡ (
          if s == t && (leb off a && ltb a (off + length bs))
          then get_or bs (a - off) 0
          else net.byte m t a)
  pub length-read : (m : net.Memory) (s off n : ℕ) → length (net.read m s off n) ≡ n
  pub get_or-read :
      (m : net.Memory) (s off n i : ℕ)
      → i < n
      → get_or (net.read m s off n) i 0 ≡ net.byte m s (off + i)

module _ (net : OneSided) (laws : OneSidedLaws net) where
  open net use {Memory, byte, write, read}
  open laws use {byte-write, length-read, get_or-read}

  -- Byte `i` of a read of `n` bytes at `off`, after a write of `bs` at `woff` of the same server.
  get_or-read-write :
      (m : Memory) (s woff off n i : ℕ) (bs : List ℕ)
      → i < n
      → get_or (read (write m s woff bs) s off n) i 0 ≡ (
          if leb woff (off + i) && ltb (off + i) (woff + length bs)
          then get_or bs (off + i - woff) 0
          else byte m s (off + i))
  get_or-read-write m s woff off n i bs h =
      get_or-read (write m s woff bs) s off n i h
      ∙ ground (arith, byte-write m s woff bs s (off + i))

  read-write :
      (m : Memory) (s off n : ℕ) (bs : List ℕ)
      → length bs ≡ n
      → read (write m s off bs) s off n ≡ bs
  read-write m s off n bs full = list_ext _ bs 0 (length-read _ s off n ∙ sym full) λ i h.
      let within : i < n = omega (arith, length-read (write m s off bs) s off n) in
      let same : off + i - off ≡ i = omega arith in
      ground (arith, get_or-read-write m s off off n i bs within, same)

  -- A write one byte further on is what a later read sees from its second byte on.
  read-write-write :
      (m : Memory) (s off n : ℕ) (bs cs : List ℕ)
      → length bs ≡ n
      → length cs ≡ n
      → (i : ℕ) → i < n
      → get_or (read (write (write m s off bs) s (off + 1) cs) s off n) i 0
        ≡ (if i == 0 then get_or bs 0 0 else get_or cs (i - 1) 0)
  read-write-write m s off n bs cs fb fc zero h =
      get_or-read-write (write m s off bs) s (off + 1) off n 0 cs h
      ∙ ground (arith, byte-write m s off bs s (off + 0), back)
    where
      back : off + 0 - off ≡ 0
      back = omega arith
  read-write-write m s off n bs cs fb fc (suc i) h =
      get_or-read-write (write m s off bs) s (off + 1) off n (suc i) cs h ∙ ground (arith, back)
    where
      back : off + suc i - (off + 1) ≡ suc i - 1
      back = omega arith

module _ (net : OneSided) (laws : OneSidedLaws net) (c : Configuration) (start : ℕ) where
  open net use {Memory}

  -- The slots of a node are one byte apart, and a block is `blksz` bytes: if a block is
  -- written for a key, and then one for the next key of the same node, a read of the first key
  -- succeeds and returns the first byte of its own block and then the next key's block.
  pub read_correct_node-overlap :
      IsSized c
      → (m : Memory) (key : ℕ) (mine next : List ℕ) → 1 ≤ key
      → key + 1 ≤ keys_per_node c * c.num_nodes
      → key % keys_per_node c ≢ 0
      → length mine ≡ blksz
      → length next ≡ blksz
      → (got : List ℕ) × ((do
        m₁ ← write_correct_node net c start m key mine
        m₂ ← write_correct_node net c start m₁ (key + 1) next
        read_correct_node net c start m₂ key)
          ≡ ok got)
        × ((i : ℕ)
            → i < blksz
            → get_or got i 0 ≡ (if i == 0 then get_or mine 0 0 else get_or next (i - 1) 0))
  unfolding write_correct_node read_correct_node
  read_correct_node-overlap v m key mine next lo hi inner fm fn =
      let (p, here, after) = next_slot c v key lo hi inner in
      (
        _,
        rw (here, after) refl,
        read-write-write net laws m (p.node_index + start) p.offset blksz mine next fm fn,
      )
