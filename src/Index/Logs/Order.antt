-- ===== src/Index/Logs/Order.antt =====
-- The worker applies the slots of a log in their order, which is not the order of the changes.
use twig_kv.Common.{
  ℕ, zero, suc, ◌+◌, ◌-◌, ◌^◌, ◌<◌, ◌≤◌, ◌≡◌, ◌≢◌, refl, sym, ap, ◌∙◌, true, List, [], ◌∷◌, some,
  ok, arith, get_elem?,
}
use twig_kv.Index.Logs.{LogEntry, Log, sent, append_entry, apply_log}
use twig_kv.Index.Logs.Apply.{apply_log-latest, latest-some, latest-filled}
use twig_kv.Index.Logs.History.{filled, Logged, sent-slots}

module _ {C : Type 0} (invalid : ℕ) where
  -- If a slot but the first is filled for the key, then such a slot gives the key its entry.
  apply_log-later :
      (key max : ℕ) (es : List (LogEntry C)) (table : ℕ → C) (j : ℕ) (e : LogEntry C)
      → key ≢ invalid
      → 1 ≤ j
      → j < max
      → get_elem? es j ≡ some e
      → e.filled ≡ true
      → e.key ≡ key
      → (i : ℕ) × (d : LogEntry C) × (1 ≤ i)
        × (i < max)
        × (get_elem? es i ≡ some d)
        × (d.key ≡ key)
        × ((apply_log invalid max es table).1 key ≡ d.cache_index)
  apply_log-later key max [] table j e ne lo hi at f k = absurd cc
  apply_log-later key zero (x ∷ es) table j e ne lo hi at f k = elim hi [ ]
  apply_log-later key (suc max) (x ∷ es) table zero e ne lo hi at f k = elim lo [ ]
  apply_log-later key (suc max) (x ∷ es) table (suc j) e ne lo hi at f k =
      let (c, s) = latest-filled key max es j e (omega arith) at f k in
      let (i, d, lt, at', same, value) = latest-some key max es c s in
      (
        suc i,
        d,
        omega arith,
        omega arith,
        at',
        same,
        apply_log-latest invalid key (suc max) (x ∷ es) table ne ∙ rw s (sym value),
      )

  -- If a call with entry number `k` sends a log that has been filled once before, and one of
  -- the `max - 1` entries before it has the same valid key, then the worker's pass over the
  -- log leaves the receiver's table with an entry for that key that was appended before entry
  -- `k`.
  pub sent_log_applies_older :
      (max others k : ℕ) (h : ℕ → LogEntry C) (rounds : List (ℕ → LogEntry C)) (log log' : Log C)
      (table : ℕ → C) (j : ℕ)
      → max ≤ k
      → k + 1 < 2 ^ 64
      → Logged max h k log
      → append_entry max others (h k) rounds log ≡ ok (sent log')
      → 1 ≤ j
      → j < max
      → (h (k - max + j)).key ≡ (h k).key
      → (h k).key ≢ invalid
      → (i : ℕ) × (i < k)
        × ((h i).key ≡ (h k).key)
        × ((apply_log invalid max log'.entries table).1 (h k).key ≡ (h i).cache_index)
  sent_log_applies_older max others k h rounds log log' table j round room v run lo hi same ne =
      let (first, earlier) =
        sent-slots max others k h rounds log log' (omega arith) round room v run in
      let (i, d, lo', hi', at, key, value) =
        apply_log-later (h k).key max log'.entries table j (filled (h (k - max + j))) ne lo hi
          (earlier j lo hi) refl same in
      let d' : filled (h (k - max + i)) ≡ d = ground (arith, earlier i lo' hi') in
      (k - max + i, omega arith, ap (λ t. t.key) d' ∙ key, value ∙ ap (λ t. t.cache_index) (sym d'))
