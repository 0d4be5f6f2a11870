-- ===== src/Index/Logs.antt =====
-- `CacheIndexLogs` of src/ldc.h: a server collects the changes of its table in a log of
-- `cache_log_sync_every_x_operations` slots and one more, sends the whole log to the other servers,
-- and applies the logs that it gets.
pub mod Apply
pub mod Newest
pub mod History
pub mod Returns
pub mod Order
pub mod Probe
use twig_kv.Common.{
  ℕ, zero, suc, ◌+◌, ◌*◌, ◌%◌, Bool, true, false, List, [], ◌∷◌, Outcome, ok, undefined, ◌>>=◌,
  ◌==◌, if◌then◌else◌, set, u64, add64, Option, none, some, get_elem?, not, ◌&&◌,
}

-- `CacheIndexLogEntry`; `C` is the type of a cache index.
pub record LogEntry (C : Type 0) : Type 0 where
  pub key : ℕ
  pub cache_index : C
  pub filled : Bool

-- `MachineCacheIndexLog` of the server itself.
pub record Log (C : Type 0) : Type 0 where
  pub entries : List (LogEntry C)
  pub index : ℕ

-- How a call of `append_entry` ends: the entry is only stored, or the log is sent to the others, or
-- the call still waits for them when the events are used up.
pub data Sync (C : Type 0) : Type 0 where
  stored : Log C → Sync C
  sent : Log C → Sync C
  waiting : Log C → Sync C

module _ {C : Type 0} where
  -- One round of probes, of `n` other servers from number `i` on, where `reads` says which entry is
  -- read for each of them: each read overwrites the last slot, and the servers whose entry is not
  -- filled are ready.
  unfoldable pub probe :
      (max n i : ℕ) → (ℕ → LogEntry C) → List (LogEntry C) → List (LogEntry C) × Bool
  probe max zero i reads entries = (entries, true)
  probe max (suc n) i reads entries =
      let (entries', ready) = probe max n (i + 1) reads (set entries max (reads i)) in
      (entries', not (reads i).filled && ready)

  mark_last : ℕ → List (LogEntry C) → List (LogEntry C)
  mark_last zero [] = []
  mark_last zero (e ∷ es) = record e { filled = true } ∷ es
  mark_last (suc max) [] = []
  mark_last (suc max) (e ∷ es) = e ∷ mark_last max es

  -- The loop `while (!done)`; each event says what one round of probes of the others reads.
  unfoldable pub sync_loop : (max others : ℕ) → List (ℕ → LogEntry C) → Log C → Sync C
  unfolding probe mark_last
  sync_loop max others [] log = waiting log
  sync_loop max others (reads ∷ rounds) log =
      let (entries, ready) = probe max others 0 reads log.entries in
      let again = sync_loop max others rounds (record log { entries = entries }) in
      if ready then sent (record log { entries = mark_last max entries }) else again

  -- `% 0` is undefined behaviour. The entry is marked as filled before it is stored.
  unfoldable pub append_entry :
      (max others : ℕ) → LogEntry C → List (ℕ → LogEntry C) → Log C → Outcome (Sync C)
  unfolding sync_loop
  append_entry max others entry rounds log =
      if max == 0
      then undefined
      else let slot = log.index % max in
        let log' : Log C = record {
          entries = set log.entries slot (record entry { filled = true });
          index = add64 log.index 1;
        } in
        ok (if slot == 0 then sync_loop max others rounds log' else stored log')

  -- The table that the receiver keeps for the sender.
  abbrev pub write_table : ℕ → C → (ℕ → C) → ℕ → C
  write_table key c table k = if k == key then c else table k

  -- One slot of the background worker: a slot that is not filled is skipped, and so is the key
  -- `KEY_VALUE_PTR_INVALID`.
  abbrev pub apply_entry : ℕ → LogEntry C → (ℕ → C) → ℕ → C
  apply_entry invalid e table =
      if e.filled
      then (if e.key == invalid then table else write_table e.key e.cache_index table)
      else table

  -- The worker's pass over the `max` slots of a log, and the last slot.
  unfoldable pub apply_log : ℕ → ℕ → List (LogEntry C) → (ℕ → C) → List (LogEntry C) × (ℕ → C)
  apply_log invalid max [] table = ([], table)
  apply_log invalid zero (last ∷ rest) table = (record last { filled = false } ∷ rest, table)
  apply_log invalid (suc max) (e ∷ es) table =
      let (es', table') = apply_log invalid max es (apply_entry invalid e table) in
      (record e { filled = false } ∷ es', table')

  -- `append_entry_k`: the entry is that of the server's own table, as it is now.
  unfoldable pub append_entry_k :
      (max others : ℕ) → (ℕ → C) → ℕ → List (ℕ → LogEntry C) → Log C → Outcome (Sync C)
  unfolding append_entry
  append_entry_k max others own key rounds log =
      append_entry max others (record { key = key; cache_index = own key; filled = true }) rounds
        log
