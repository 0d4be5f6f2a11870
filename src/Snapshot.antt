-- ===== src/Snapshot.antt =====
-- `Snapshot` of src/ldc.h: counters of accesses for each key, written out now and then.
pub mod Updates
use twig_kv.Common.{
  ℕ, zero, suc, ◌+◌, Bool, true, false, not, List, [], ◌∷◌, Option, none, some, Outcome, ok, panic,
  undefined, ◌>>=◌, ltb, ◌==◌, if◌then◌else◌, get_elem?, set, add64, map,
}
use twig_kv.Config.{Configuration}

pub record SnapshotEntry : Type 0 where
  pub key_index : ℕ
  pub total_accesses : ℕ
  pub cache_hits : ℕ
  pub cache_miss : ℕ
  pub evicted : ℕ
  pub disk_access : ℕ
  pub local_disk_access : ℕ
  pub remote_disk_access : ℕ
  pub access_rate : ℕ

-- The counters, one for each `update_` method.
pub data Counter : Type 0 where
  total_accesses cache_hits cache_miss evicted disk_access local_disk_access : Counter
  remote_disk_access access_rate : Counter

abbrev pub read : Counter → SnapshotEntry → ℕ
read total_accesses e = e.total_accesses
read cache_hits e = e.cache_hits
read cache_miss e = e.cache_miss
read evicted e = e.evicted
read disk_access e = e.disk_access
read local_disk_access e = e.local_disk_access
read remote_disk_access e = e.remote_disk_access
read access_rate e = e.access_rate

-- `e.total_accesses++` and so on
abbrev pub increment : Counter → SnapshotEntry → SnapshotEntry
increment total_accesses e = record e { total_accesses = add64 e.total_accesses 1 }
increment cache_hits e = record e { cache_hits = add64 e.cache_hits 1 }
increment cache_miss e = record e { cache_miss = add64 e.cache_miss 1 }
increment evicted e = record e { evicted = add64 e.evicted 1 }
increment disk_access e = record e { disk_access = add64 e.disk_access 1 }
increment local_disk_access e = record e { local_disk_access = add64 e.local_disk_access 1 }
increment remote_disk_access e = record e { remote_disk_access = add64 e.remote_disk_access 1 }
increment access_rate e = record e { access_rate = add64 e.access_rate 1 }

pub record Snapshot : Type 0 where
  pub ops_config : Configuration
  pub entries : List SnapshotEntry
  pub index : ℕ

abbrev pub enabled : Configuration → Bool
enabled c = not (c.dump_snapshot_period_ms == 0)

abbrev fresh_entry : ℕ → SnapshotEntry
fresh_entry i = record {
  key_index = i;
  total_accesses = 0;
  cache_hits = 0;
  cache_miss = 0;
  evicted = 0;
  disk_access = 0;
  local_disk_access = 0;
  remote_disk_access = 0;
  access_rate = 0;
}

-- `resize`, which clears the new entries, and the loop over them
unfoldable pub fresh_entries : ℕ → ℕ → List SnapshotEntry
fresh_entries zero i = []
fresh_entries (suc n) i = fresh_entry i ∷ fresh_entries n (i + 1)

-- The constructor, without its thread.
unfoldable pub new : Configuration → Snapshot
unfolding fresh_entries
new c = record {
  ops_config = c;
  entries = if enabled c then fresh_entries c.num_key_value_pairs 0 else [];
  index = 0;
}

-- `entries[i]` behind the check of `get_entry`
unfoldable pub get_entry : Snapshot → ℕ → Outcome SnapshotEntry
get_entry s key =
    if ltb s.ops_config.num_key_value_pairs key
    then panic
    else elim (get_elem? s.entries key) [ none ↦ undefined | some e ↦ ok e ]

-- `update_total_access`, `update_cache_hits` and so on differ in the counter only.
unfoldable pub update : Counter → ℕ → Snapshot → Outcome Snapshot
unfolding get_entry
update counter key s =
    if not (enabled s.ops_config)
    then ok s
    else if ltb s.ops_config.num_key_value_pairs key
    then panic
    else do e ← get_entry s key; ok (record s { entries = set s.entries key (increment counter e) })

-- `dump`: the entries go to the file with the number `index`.
unfoldable pub dump : Snapshot → (ℕ × List SnapshotEntry) × Snapshot
dump s = ((s.index, s.entries), record s { index = add64 s.index 1 })
