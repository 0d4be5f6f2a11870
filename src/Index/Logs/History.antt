-- ===== src/Index/Logs/History.antt =====
-- The log holds the newest entries, and the slot that triggers a send holds the newest of all.
use twig_kv.Common.{
  ℕ, zero, suc, ◌+◌, ◌-◌, ◌%◌, ◌^◌, ◌<◌, ◌≤◌, ◌≡◌, ◌≢◌, refl, sym, ap, ◌∙◌, ◌⊎◌, inl, inr, true,
  List, [], ◌∷◌, some, ok, arith, ◌==◌, if◌then◌else◌, set, get_elem?, length, length-set,
  get_elem?-set_self, get_elem?-set_ne, add64, subst, Bool-cases, ℕ_discrete,
}
use twig_kv.Index.Logs.Newest.{newest, newest_self, newest-other, newest-full}
use twig_kv.Index.Logs.{LogEntry, Log, stored, sent, probe, mark_last, sync_loop, append_entry}

module _ {C : Type 0} where
  abbrev pub filled : LogEntry C → LogEntry C
  filled e = record e { filled = true }

  -- The log after the entries `h 0`, ..., `h (k - 1)` have been appended to it.
  pub record Logged (max : ℕ) (h : ℕ → LogEntry C) (k : ℕ) (log : Log C) : Type 0 where
    pub size : length log.entries ≡ max + 1
    pub count : log.index ≡ k
    pub slots :
        (j : ℕ) → j < max → j < k → get_elem? log.entries j ≡ some (filled (h (newest max k j)))

  get_elem?-mark_last :
      (max : ℕ) (es : List (LogEntry C)) (j : ℕ)
      → j < max
      → get_elem? (mark_last max es) j ≡ get_elem? es j
  unfolding mark_last
  get_elem?-mark_last zero [] j h = elim h [ ]
  get_elem?-mark_last (suc max) [] j h = refl
  get_elem?-mark_last zero (e ∷ es) j h = elim h [ ]
  get_elem?-mark_last (suc max) (e ∷ es) zero h = refl
  get_elem?-mark_last (suc max) (e ∷ es) (suc j) h = get_elem?-mark_last max es j (omega arith)

  length-mark_last : (max : ℕ) (es : List (LogEntry C)) → length (mark_last max es) ≡ length es
  unfolding mark_last
  length-mark_last zero [] = refl
  length-mark_last (suc max) [] = refl
  length-mark_last zero (e ∷ es) = refl
  length-mark_last (suc max) (e ∷ es) = ap suc (length-mark_last max es)

  length-probe :
      (max n i : ℕ) (reads : ℕ → LogEntry C) (es : List (LogEntry C))
      → length (probe max n i reads es).0 ≡ length es
  unfolding probe
  length-probe max zero i reads es = refl
  length-probe max (suc n) i reads es =
      length-probe max n (i + 1) reads (set es max (reads i)) ∙ length-set es max (reads i)

  get_elem?-probe :
      (max n i : ℕ) (reads : ℕ → LogEntry C) (es : List (LogEntry C)) (j : ℕ)
      → j < max
      → get_elem? (probe max n i reads es).0 j ≡ get_elem? es j
  unfolding probe
  get_elem?-probe max zero i reads es j h = refl
  get_elem?-probe max (suc n) i reads es j h =
      get_elem?-probe max n (i + 1) reads (set es max (reads i)) j h
      ∙ get_elem?-set_ne es max j (reads i) (omega arith)

  -- The two logs differ in the last slot at most.
  pub record Alike (max : ℕ) (log log' : Log C) : Type 0 where
    pub size : length log'.entries ≡ length log.entries
    pub count : log'.index ≡ log.index
    pub slots : (j : ℕ) → j < max → get_elem? log'.entries j ≡ get_elem? log.entries j

  pub sync_loop-Alike :
      (max others : ℕ) (rounds : List (ℕ → LogEntry C)) (log log' : Log C)
      → sync_loop max others rounds log ≡ sent log'
      → Alike max log log'
  unfolding sync_loop
  sync_loop-Alike max others [] log log' e = cc
  sync_loop-Alike max others (reads ∷ rounds) log log' e =
      elim (Bool-cases (probe max others 0 reads log.entries).1) [
        | inl ready ↦
            let es = (probe max others 0 reads log.entries).0 in
            let marked : log' ≡ record log { entries = mark_last max es } = ground arith in
            rw marked (record {
              size = length-mark_last max es ∙ length-probe max others 0 reads log.entries;
              count = refl;
              slots = λ j h.
                  get_elem?-mark_last max es j h
                  ∙ get_elem?-probe max others 0 reads log.entries j h;
            })
        | inr again ↦
            let a =
              sync_loop-Alike max others rounds
                (record log { entries = (probe max others 0 reads log.entries).0 }) log'
                (ground arith) in
            record {
              size = a.size ∙ length-probe max others 0 reads log.entries;
              count = a.count;
              slots = λ j h. a.slots j h ∙ get_elem?-probe max others 0 reads log.entries j h;
            }
      ]

  sync_loop-ne-stored :
      (max others : ℕ) (rounds : List (ℕ → LogEntry C)) (log log' : Log C)
      → sync_loop max others rounds log ≢ stored log'
  unfolding sync_loop
  sync_loop-ne-stored max others [] log log' e = cc
  sync_loop-ne-stored max others (reads ∷ rounds) log log' e =
      elim (Bool-cases (probe max others 0 reads log.entries).1) [
        | inl ready ↦ ground arith
        | inr again ↦
            sync_loop-ne-stored max others rounds
              (record log { entries = (probe max others 0 reads log.entries).0 }) log'
              (ground arith)
      ]

  -- The log with the next entry in its slot.
  abbrev pub pushed : ℕ → LogEntry C → Log C → Log C
  pushed max entry log = record {
    entries = set log.entries (log.index % max) (filled entry);
    index = add64 log.index 1;
  }

  pushed-Logged :
      (max k : ℕ) (h : ℕ → LogEntry C) (log : Log C)
      → 0 < max
      → k + 1 < 2 ^ 64
      → Logged max h k log
      → Logged max h (k + 1) (pushed max (h k) log)
  pushed-Logged max k h log pos room v = record {
    size = length-set log.entries _ _ ∙ v.size;
    count = omega (arith, v.count);
    slots = at;
  }
    where
      slot : log.index % max ≡ k % max
      slot = ap (λ t. t % max) v.count

      old : (j : ℕ) → j < max → j < k + 1 → j ≢ k % max → j < k
      old j lt le ne = grind arith

      at :
          (j : ℕ)
          → j < max
          → j < k + 1
          → get_elem? (pushed max (h k) log).entries j ≡ some (filled (h (newest max (k + 1) j)))
      at j lt le = elim (ℕ_discrete j (k % max)) [
        | yes e ↦
            rw (slot, e, newest_self max k pos)
              (get_elem?-set_self log.entries (k % max) (filled (h k)) (omega (arith, v.size)))
        | no ne ↦
            rw (slot, newest-other max k j lt (old j lt le ne) ne)
              (get_elem?-set_ne log.entries (k % max) j (filled (h k)) (λ e. ne (sym e))
                ∙ v.slots j lt (old j lt le ne))
      ]

  pub append_entry-pushed :
      (max others : ℕ) (e : LogEntry C) (rounds : List (ℕ → LogEntry C)) (log : Log C)
      → 0 < max
      → append_entry max others e rounds log
        ≡ ok (
            if log.index % max == 0
            then sync_loop max others rounds (pushed max e log)
            else stored (pushed max e log))
  unfolding append_entry
  append_entry-pushed max others e rounds log pos = ground arith

  -- A log that is sent is the pushed one but for its last slot, and its entry went to slot 0.
  sent-Alike :
      (max others : ℕ) (e : LogEntry C) (rounds : List (ℕ → LogEntry C)) (log log' : Log C)
      → 0 < max
      → append_entry max others e rounds log ≡ ok (sent log')
      → Alike max (pushed max e log) log' × (log.index % max ≡ 0)
  sent-Alike max others e rounds log log' pos run = elim (Bool-cases (log.index % max == 0)) [
    | inl z ↦ (
      sync_loop-Alike max others rounds (pushed max e log) log'
          (ground (arith, append_entry-pushed max others e rounds log pos)),
      ground arith,
    )
    | inr nz ↦ absurd (ground (arith, append_entry-pushed max others e rounds log pos))
  ]

  Alike-Logged :
      (max k : ℕ) (h : ℕ → LogEntry C) (log log' : Log C)
      → Alike max log log'
      → Logged max h k log
      → Logged max h k log'
  Alike-Logged max k h log log' a v = record {
    size = a.size ∙ v.size;
    count = a.count ∙ v.count;
    slots = λ j lt le. a.slots j lt ∙ v.slots j lt le;
  }

  -- If a call on a log that holds the newest of `k` entries returns, whether it stored the
  -- entry or sent the log, then the log holds the newest of `k + 1` entries. The number of
  -- entries fits in 64 bits.
  pub append_entry-Logged :
      (max others k : ℕ) (h : ℕ → LogEntry C) (rounds : List (ℕ → LogEntry C)) (log log' : Log C)
      → 0 < max
      → k + 1 < 2 ^ 64
      → Logged max h k log
      → (append_entry max others (h k) rounds log ≡ ok (stored log'))
        ⊎ (append_entry max others (h k) rounds log ≡ ok (sent log'))
      → Logged max h (k + 1) log'
  append_entry-Logged max others k h rounds log log' pos room v (inl e) =
      let same : pushed max (h k) log ≡ log' = ground (
        arith,
        append_entry-pushed max others (h k) rounds log pos,
        sync_loop-ne-stored max others rounds (pushed max (h k) log) log',
      ) in
      subst (Logged max h (k + 1)) same (pushed-Logged max k h log pos room v)
  append_entry-Logged max others k h rounds log log' pos room v (inr e) =
      Alike-Logged max (k + 1) h (pushed max (h k) log) log'
        (sent-Alike max others (h k) rounds log log' pos e).0 (pushed-Logged max k h log pos room v)

  -- If a call with entry number `k` sends the log, which has been filled once before and
  -- counts in 64 bits, then slot 0 of what is sent holds that entry, and slot `j` the entry
  -- that was appended `max - j` calls before it.
  pub sent-slots :
      (max others k : ℕ) (h : ℕ → LogEntry C) (rounds : List (ℕ → LogEntry C)) (log log' : Log C)
      → 0 < max
      → max ≤ k
      → k + 1 < 2 ^ 64
      → Logged max h k log
      → append_entry max others (h k) rounds log ≡ ok (sent log')
      → (get_elem? log'.entries 0 ≡ some (filled (h k)))
        × ((j : ℕ) → 1 ≤ j → j < max → get_elem? log'.entries j ≡ some (filled (h (k - max + j))))
  sent-slots max others k h rounds log log' pos round room v run = (first, earlier)
    where
      w : Logged max h (k + 1) log'
      w = append_entry-Logged max others k h rounds log log' pos room v (inr run)

      turn : k % max ≡ 0
      turn =
          ap (λ t. t % max) (sym v.count) ∙ (sent-Alike max others (h k) rounds log log' pos run).1

      first : get_elem? log'.entries 0 ≡ some (filled (h k))
      first =
          w.slots 0 pos (omega arith)
          ∙ ap (λ t. some (filled (h t)))
              (ap (newest max (k + 1)) (sym turn) ∙ newest_self max k pos)

      earlier :
          (j : ℕ) → 1 ≤ j → j < max → get_elem? log'.entries j ≡ some (filled (h (k - max + j)))
      earlier j lo hi = rw (← newest-full max k j lo hi round turn) (w.slots j hi (omega arith))
