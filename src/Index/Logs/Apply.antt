-- ===== src/Index/Logs/Apply.antt =====
-- What the background worker makes of a log.
use twig_kv.Common.{
  ℕ, zero, suc, ◌<◌, ◌≤◌, ◌≡◌, ◌≢◌, refl, ◌∙◌, inl, inr, true, false, List, [], ◌∷◌, Option, none,
  some, arith, ◌==◌, if◌then◌else◌, ◌&&◌, get_elem?, Option-cases,
}
use twig_kv.Index.Logs.{LogEntry, apply_entry, apply_log}

module _ {C : Type 0} where
  -- The last of the first `max` slots that is filled for the key.
  abbrev pub latest : ℕ → ℕ → List (LogEntry C) → Option C
  latest key max [] = none
  latest key zero (e ∷ es) = none
  latest key (suc max) (e ∷ es) = elim (latest key max es) [
    | some c ↦ some c
    | none ↦ if e.filled && (e.key == key) then some e.cache_index else none
  ]

  abbrev pub or_else : Option C → C → C
  or_else none d = d
  or_else (some c) d = c

  -- What decides is a slot for the key.
  pub latest-some :
      (key max : ℕ) (es : List (LogEntry C)) (c : C)
      → latest key max es ≡ some c
      → (i : ℕ) × (d : LogEntry C) × (i < max)
        × (get_elem? es i ≡ some d)
        × (d.key ≡ key)
        × (d.cache_index ≡ c)
  latest-some key max [] c h = absurd cc
  latest-some key zero (x ∷ es) c h = absurd cc
  latest-some key (suc max) (x ∷ es) c h = elim (Option-cases (latest key max es)) [
    | inl e ↦ (0, x, omega arith, refl, ground arith, ground arith)
    | inr (c', e) ↦
        let (i, d, lt, at, same, value) = latest-some key max es c' e in
        (suc i, d, omega arith, at, same, ground arith)
  ]

  -- If a slot is filled for the key, some slot decides.
  pub latest-filled :
      (key max : ℕ) (es : List (LogEntry C)) (j : ℕ) (e : LogEntry C)
      → j < max
      → get_elem? es j ≡ some e
      → e.filled ≡ true
      → e.key ≡ key
      → (c : C) × (latest key max es ≡ some c)
  latest-filled key max [] j e h g f k = absurd cc
  latest-filled key zero (x ∷ es) j e h g f k = elim h [ ]
  latest-filled key (suc max) (x ∷ es) zero e h g f k = elim (Option-cases (latest key max es)) [
    | inl n ↦ (x.cache_index, rw n (ground arith))
    | inr (c, s) ↦ (c, rw s)
  ]
  latest-filled key (suc max) (x ∷ es) (suc j) e h g f k =
      let (c, s) = latest-filled key max es j e (omega arith) g f k in (c, rw s)

module _ {C : Type 0} (invalid : ℕ) where
  -- After the worker's pass over a log a key has the entry of the last slot that is filled for
  -- it, and the entry that it had before if there is none, unless it is the number that marks
  -- an invalid pointer.
  pub apply_log-latest :
      (key max : ℕ) (es : List (LogEntry C)) (table : ℕ → C)
      → key ≢ invalid
      → (apply_log invalid max es table).1 key ≡ or_else (latest key max es) (table key)
  unfolding apply_log
  apply_log-latest key max [] table h = refl
  apply_log-latest key zero (e ∷ es) table h = refl
  apply_log-latest key (suc max) (e ∷ es) table h =
      apply_log-latest key max es (apply_entry invalid e table) h ∙ ground arith

  -- After the worker's pass no slot up to the last one is filled.
  pub apply_log-cleared :
      (max : ℕ) (es : List (LogEntry C)) (table : ℕ → C) (j : ℕ) (e : LogEntry C)
      → j ≤ max
      → get_elem? (apply_log invalid max es table).0 j ≡ some e
      → e.filled ≡ false
  unfolding apply_log
  apply_log-cleared max [] table j e h g = cc
  apply_log-cleared zero (x ∷ es) table zero e h g = ground arith
  apply_log-cleared zero (x ∷ es) table (suc j) e h g = absurd (omega arith)
  apply_log-cleared (suc max) (x ∷ es) table zero e h g = ground arith
  apply_log-cleared (suc max) (x ∷ es) table (suc j) e h g =
      apply_log-cleared max es (apply_entry invalid x table) j e (omega arith) g
