-- ===== src/Index/Logs/Returns.antt =====
-- When a call of `append_entry` returns, and with what log.
use twig_kv.Common.{
  ℕ, zero, suc, ◌+◌, ◌<◌, ◌≤◌, ◌≡◌, refl, sym, ◌∙◌, inl, inr, true, false, List, [], ◌∷◌, ◌++◌, ok,
  arith, ◌%◌, ◌==◌, if◌then◌else◌, set, Bool-cases, length, length-set, get_elem?,
  get_elem?-set_self, get_elem?-set_ne, some, add64, ◌≢◌,
}
use twig_kv.Index.Logs.{LogEntry, Log, stored, sent, probe, mark_last, sync_loop, append_entry}
use twig_kv.Index.Logs.History.{Alike, filled, pushed, append_entry-pushed, sync_loop-Alike}

module _ {C : Type 0} where
  -- A round of probes that finds all other servers ready.
  abbrev pub AllReady : ℕ → (ℕ → LogEntry C) → Type 0
  AllReady others reads = (i : ℕ) → i < others → (reads i).filled ≡ false

  probe-AllReady :
      (max n i : ℕ) (reads : ℕ → LogEntry C) (es : List (LogEntry C))
      → AllReady (i + n) reads
      → (probe max n i reads es).1 ≡ true
  unfolding probe
  probe-AllReady max zero i reads es h = refl
  probe-AllReady max (suc n) i reads es h = ground (
    arith,
    h i (omega arith),
    probe-AllReady max n (i + 1) reads (set es max (reads i)) (λ j l. h j (omega arith)),
  )

  sync_loop-sent :
      (max others : ℕ) (waits : List (ℕ → LogEntry C)) (reads : ℕ → LogEntry C)
      (rounds : List (ℕ → LogEntry C)) (log : Log C)
      → AllReady others reads
      → (log' : Log C) × (sync_loop max others (waits ++ reads ∷ rounds) log ≡ sent log')
  unfolding sync_loop
  sync_loop-sent max others [] reads rounds log h = (
    record log { entries = mark_last max (probe max others 0 reads log.entries).0 },
    rw (probe-AllReady max others 0 reads log.entries (λ j l. h j (omega arith))) refl,
  )
  sync_loop-sent max others (w ∷ waits) reads rounds log h =
      elim (Bool-cases (probe max others 0 w log.entries).1) [
        | inl ready ↦ (
          record log { entries = mark_last max (probe max others 0 w log.entries).0 },
          rw ready refl,
        )
        | inr again ↦
            let (log', e) =
              sync_loop-sent max others waits reads rounds
                (record log { entries = (probe max others 0 w log.entries).0 }) h in
            (log', rw again e)
      ]

  -- A log after one more entry: the entry is in its slot, filled, and the other slots but the last
  -- are as before.
  pub record IsAppended (max : ℕ) (e : LogEntry C) (log log' : Log C) : Type 0 where
    pub count : log'.index ≡ add64 log.index 1
    pub size : length log'.entries ≡ length log.entries
    pub here : get_elem? log'.entries (log.index % max) ≡ some (filled e)
    pub others :
        (j : ℕ) → j < max → j ≢ log.index % max → get_elem? log'.entries j ≡ get_elem? log.entries j

  Alike-IsAppended :
      (max : ℕ) (e : LogEntry C) (log log' : Log C)
      → 0 < max
      → max ≤ length log.entries
      → Alike max (pushed max e log) log'
      → IsAppended max e log log'
  Alike-IsAppended max e log log' pos room a =
      let low : log.index % max < max = grind arith in
      record {
        count = a.count;
        size = a.size ∙ length-set log.entries _ _;
        here =
            a.slots (log.index % max) low
            ∙ get_elem?-set_self log.entries (log.index % max) (filled e) (omega (arith, low));
        others = λ j h ne.
            a.slots j h
            ∙ get_elem?-set_ne log.entries (log.index % max) j (filled e) (λ same. ne (sym same));
      }

  -- A call on a log with at least one slot returns if some round of probes finds all other servers
  -- ready, whatever the rounds before it find: it has sent the log if the slot of the entry is 0,
  -- and only stored the entry otherwise. Either way the log then has the entry in its slot, marked
  -- as filled, and counts one more, and the other slots but the last one are as before.
  pub append_entry-returns :
      (max others : ℕ) (e : LogEntry C) (waits : List (ℕ → LogEntry C)) (reads : ℕ → LogEntry C)
      (rounds : List (ℕ → LogEntry C)) (log : Log C)
      → 0 < max
      → max ≤ length log.entries
      → AllReady others reads
      → (log' : Log C) × (append_entry max others e (waits ++ reads ∷ rounds) log
          ≡ ok (if log.index % max == 0 then sent log' else stored log'))
        × IsAppended max e log log'
  append_entry-returns max others e waits reads rounds log pos room h =
      elim (Bool-cases (log.index % max == 0)) [
        | inl z ↦
            let (log', run) = sync_loop-sent max others waits reads rounds (pushed max e log) h in
            (
              log',
              append_entry-pushed max others e _ log pos ∙ rw (z, run) refl,
              Alike-IsAppended max e log log' pos room
                  (sync_loop-Alike max others _ (pushed max e log) log' run),
            )
        | inr nz ↦ (
          pushed max e log,
          append_entry-pushed max others e _ log pos ∙ rw nz refl,
          Alike-IsAppended max e log (pushed max e log) pos room
              (record { size = refl; count = refl; slots = λ j l. refl }),
        )
      ]
