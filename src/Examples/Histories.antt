-- ===== src/Examples/Histories.antt =====
-- A log of two slots, and the entries of key 5 that go through it.
use twig_kv.Common.{
  ℕ, zero, suc, ◌+◌, ◌-◌, ◌%◌, ◌<◌, ◌≤◌, ◌≡◌, refl, [], ◌∷◌, ok, some, arith, get_elem?, false,
}
use twig_kv.Index.Logs.{LogEntry, Log, sent, append_entry, apply_log}
use twig_kv.Index.Logs.Apply.{latest, or_else, apply_log-latest}
use twig_kv.Index.Logs.History.{Logged, filled, sent-slots}
use twig_kv.Index.Logs.Returns.{IsAppended, append_entry-returns}
use twig_kv.Index.Logs.Order.{sent_log_applies_older}

-- Entry `k` says that key 5 is at offset `k`.
abbrev entry : ℕ → LogEntry ℕ
entry k = record { key = 5; cache_index = k; filled = false }

-- What the probe of another server reads.
abbrev ready : LogEntry ℕ
ready = record { key = 0; cache_index = 0; filled = false }

abbrev log : Log ℕ
log = record { entries = filled (entry 0) ∷ filled (entry 1) ∷ ready ∷ []; index = 2 }

abbrev sent_log : Log ℕ
sent_log = record { entries = filled (entry 2) ∷ filled (entry 1) ∷ filled ready ∷ []; index = 3 }

log-Logged : Logged 2 entry 2 log
log-Logged = record { size = refl; count = refl; slots = at }
  where
    at : (j : ℕ) → j < 2 → j < 2 → get_elem? log.entries j ≡ some (filled (entry (1 - (1 - j) % 2)))
    at zero lt le = refl
    at (suc zero) lt le = refl
    at (suc (suc j)) lt le = absurd (omega arith)

append_entry-returns_example :
    (log' : Log ℕ) × (append_entry 2 1 (entry 2) ((λ i. filled ready) ∷ (λ i. ready) ∷ []) log
      ≡ ok (sent log'))
    × IsAppended 2 (entry 2) log log'
append_entry-returns_example =
    append_entry-returns 2 1 (entry 2) ((λ i. filled ready) ∷ []) (λ i. ready) [] log (omega arith)
      (omega arith) (λ i h. refl)

sent-slots_example :
    (get_elem? sent_log.entries 0 ≡ some (filled (entry 2)))
    × ((j : ℕ) → 1 ≤ j → j < 2 → get_elem? sent_log.entries j ≡ some (filled (entry (2 - 2 + j))))
unfolding append_entry
sent-slots_example =
    sent-slots 2 1 2 entry ((λ i. ready) ∷ []) log sent_log (omega arith) (omega arith)
      (omega arith) log-Logged refl

sent_log_applies_older_example :
    (i : ℕ) × (i < 2) × (◌≡◌ {A = ℕ} 5 5) × ((apply_log 999 2 sent_log.entries (λ k. 0)).1 5 ≡ i)
unfolding append_entry
sent_log_applies_older_example =
    sent_log_applies_older 999 2 1 2 entry ((λ i. ready) ∷ []) log sent_log (λ k. 0) 1 (omega arith)
      (omega arith) log-Logged refl (omega arith) (omega arith) refl (omega arith)

apply_log-latest_example :
    (apply_log 999 2 sent_log.entries (λ k. 0)).1 5 ≡ or_else (latest 5 2 sent_log.entries) 0
apply_log-latest_example = apply_log-latest 999 5 2 sent_log.entries (λ k. 0) (omega arith)
