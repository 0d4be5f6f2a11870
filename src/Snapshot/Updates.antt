-- ===== src/Snapshot/Updates.antt =====
-- The `update_` methods count what they are called for, and where they go out of range.
use twig_kv.Common.{
  ℕ, zero, suc, ◌+◌, ◌<◌, ◌≤◌, ◌≡◌, ◌≢◌, refl, sym, ap, ◌∙◌, true, some, ok, panic, undefined,
  arith, ◌==◌, if◌then◌else◌, get_elem?, set, length, length-set, get_elem?-set_self,
  get_elem?-set_ne, get_elem?-lt, get_elem?-ge, add64,
}
use twig_kv.Config.{Configuration}
use twig_kv.Snapshot.{
  Snapshot, SnapshotEntry, Counter, read, increment, enabled, total_accesses, fresh_entries, new,
  update,
}

length-fresh_entries : (n i : ℕ) → length (fresh_entries n i) ≡ n
unfolding fresh_entries
length-fresh_entries zero i = refl
length-fresh_entries (suc n) i = ap suc (length-fresh_entries n (i + 1))

-- An enabled snapshot has one entry for each key below NUM_KEY_VALUE_PAIRS.
pub record IsSized (s : Snapshot) : Type 0 where
  pub on : enabled s.ops_config ≡ true
  pub size : length s.entries ≡ s.ops_config.num_key_value_pairs

pub new-IsSized : (c : Configuration) → enabled c ≡ true → IsSized (new c)
unfolding new
new-IsSized c h = record { on = h; size = rw h (length-fresh_entries c.num_key_value_pairs 0) }

read-increment_self :
    (a : Counter) (e : SnapshotEntry) → read a (increment a e) ≡ add64 (read a e) 1
read-increment_self total_accesses e = refl
read-increment_self _ e = refl

read-increment_ne : (a b : Counter) (e : SnapshotEntry) → b ≢ a → read b (increment a e) ≡ read b e
read-increment_ne total_accesses total_accesses e h = absurd (h refl)
read-increment_ne a b e h = ground arith

-- On a snapshot that is enabled and has its entries, an update for a key below
-- NUM_KEY_VALUE_PAIRS succeeds, adds one to that counter of that key, and leaves the other
-- counters of the key and the entries of the other keys alone.
pub update_in_range :
    (counter : Counter) (key : ℕ) (s : Snapshot)
    → IsSized s
    → key < s.ops_config.num_key_value_pairs
    → (e e' : SnapshotEntry) × (s' : Snapshot) × (get_elem? s.entries key ≡ some e)
      × (update counter key s ≡ ok s')
      × IsSized s'
      × (get_elem? s'.entries key ≡ some e')
      × (read counter e' ≡ add64 (read counter e) 1)
      × ((other : Counter) → other ≢ counter → read other e' ≡ read other e)
      × ((k : ℕ) → k ≢ key → get_elem? s'.entries k ≡ get_elem? s.entries k)
unfolding update
update_in_range counter key s v lt =
    let (e, at) = get_elem?-lt s.entries key (omega (arith, v.size)) in
    (
      e,
      increment counter e,
      record s { entries = set s.entries key (increment counter e) },
      at,
      ground arith,
      record { on = v.on; size = length-set s.entries key _ ∙ v.size },
      get_elem?-set_self s.entries key _ (omega (arith, v.size)),
      read-increment_self counter e,
      λ other. read-increment_ne counter other e,
      λ k ne. get_elem?-set_ne s.entries key k _ (λ q. ne (sym q)),
    )

-- On a snapshot that is enabled and has its entries, an update for a key above
-- NUM_KEY_VALUE_PAIRS stops in `panic`, and one for the key that is equal to it passes both
-- checks and reads past the end of the vector.
pub update_out_of_range :
    (counter : Counter) (key : ℕ) (s : Snapshot)
    → IsSized s
    → s.ops_config.num_key_value_pairs ≤ key
    → update counter key s ≡ (if key == s.ops_config.num_key_value_pairs then undefined else panic)
unfolding update
update_out_of_range counter key s v ge =
    ground (arith, v.on, get_elem?-ge s.entries key (omega (arith, v.size)))
