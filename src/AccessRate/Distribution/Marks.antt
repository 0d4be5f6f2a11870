-- ===== src/AccessRate/Distribution/Marks.antt =====
-- The array `key_map`, and the keys that no access has been counted for.
use twig_kv.Common.{
  ℕ, zero, suc, ◌+◌, ◌^◌, ◌<◌, ◌≤◌, ◌≡◌, refl, sym, ap, ◌∙◌, List, [], ◌∷◌, Bool, true, false, not,
  ◌&&◌, ok, ltb, leb, if◌then◌else◌, length, get_elem?, set, get_elem?-set_self, get_elem?-set_ne,
  length-set, Bool-cases, lt→ltb, inl, inr, some, arith, ℕ_discrete,
}
use twig_kv.AccessRate.Distribution.{KeyFreq, write_mark, clear_marks, mark_keys, missing_keys}
use twig_kv.AccessRate.Distribution.Emit.{pairs, is_key}

-- A write in range.
write_mark_lem :
    (i : ℕ) (mark : Bool) (marks : List Bool)
    → i < length marks
    → write_mark i mark marks ≡ ok (set marks i mark)
write_mark_lem i mark marks h = rw (lt→ltb i (length marks) h) refl

-- The marks from `i` up to and without `end` are off, the others are those of `marks`.
pub record Cleared (i end : ℕ) (marks marks' : List Bool) : Type 0 where
  pub size : length marks' ≡ length marks
  pub off : (j : ℕ) → i ≤ j → j < end → get_elem? marks' j ≡ some false
  pub kept : (j : ℕ) → j < i → get_elem? marks' j ≡ get_elem? marks j

pub clear_marks_lem :
    (rounds i end : ℕ) (marks : List Bool)
    → i + rounds ≡ end
    → end ≤ length marks
    → (marks' : List Bool) × (clear_marks rounds i marks ≡ ok marks') × Cleared i end marks marks'
unfolding clear_marks
clear_marks_lem zero i end marks e h =
    (marks, refl, record { size = refl; off = λ j a b. absurd (omega arith); kept = λ j a. refl })
clear_marks_lem (suc rounds) i end marks e h =
    let (marks', run, c) =
      clear_marks_lem rounds (i + 1) end (set marks i false) (omega arith)
        (omega (arith, length-set marks i false)) in
    (
      marks',
      rw (write_mark_lem i false marks (omega arith)) run,
      record {
        size = c.size ∙ length-set marks i false;
        off = λ j a b. elim (ℕ_discrete i j) [
          | yes same ↦
              c.kept j (omega arith)
              ∙ ap (λ k. get_elem? (set marks i false) k) (sym same)
              ∙ get_elem?-set_self marks i false (omega arith)
          | no apart ↦ c.off j (omega arith) b
        ];
        kept = λ j a. c.kept j (omega arith) ∙ get_elem?-set_ne marks i j false (λ q. omega arith);
      },
    )

-- What the marks say after the loop over `es`.
pub record Marked (es : List KeyFreq) (marks marks' : List Bool) : Type 0 where
  pub size : length marks' ≡ length marks
  pub on : (j : ℕ) → 1 ≤ pairs (is_key j) es → get_elem? marks' j ≡ some true
  pub kept : (j : ℕ) → pairs (is_key j) es ≡ 0 → get_elem? marks' j ≡ get_elem? marks j

pub mark_keys_lem :
    (es : List KeyFreq) (marks : List Bool)
    → ((k : ℕ) → 1 ≤ pairs (is_key k) es → (k < 2 ^ 31) × (k < length marks))
    → (marks' : List Bool) × (mark_keys es marks ≡ ok marks') × Marked es marks marks'
unfolding mark_keys
mark_keys_lem [] marks known =
    (marks, refl, record { size = refl; on = λ j h. absurd (omega arith); kept = λ j h. refl })
mark_keys_lem (e ∷ es) marks known =
    let here = known e.key (ground arith) in
    let int_key : ltb e.key (2 ^ 31) ≡ true = lt→ltb e.key (2 ^ 31) here.0 in
    let (marks', run, m) = mark_keys_lem es (set marks e.key true) (λ k h. (
      (known k (omega arith)).0,
      omega (arith, (known k (omega arith)).1, length-set marks e.key true),
    )) in
    (
      marks',
      rw (int_key, write_mark_lem e.key true marks here.1) run,
      record {
        size = m.size ∙ length-set marks e.key true;
        on = λ j h. elim (ℕ_discrete (pairs (is_key j) es) 0) [
          | yes last ↦
              let same : e.key ≡ j = ground arith in
              m.kept j last
              ∙ ap (λ k. get_elem? (set marks e.key true) k) (sym same)
              ∙ get_elem?-set_self marks e.key true here.1
          | no again ↦ m.on j (omega arith)
        ];
        kept = λ j h.
            m.kept j (omega arith)
            ∙ get_elem?-set_ne marks e.key j true (λ q. absurd (ground (arith, q, h)));
      },
    )

-- Whether a key is among those that the loop appends.
abbrev pub absent : (seen : ℕ → Bool) (i end k : ℕ) → ℕ
absent seen i end k = if leb i k && (ltb k end && not (seen k)) then 1 else 0

pub missing_keys_lem :
    (seen : ℕ → Bool) (rounds i end : ℕ) (marks : List Bool)
    → i + rounds ≡ end
    → ((j : ℕ) → i ≤ j → j < end → get_elem? marks j ≡ some (seen j))
    → (ms : List KeyFreq) × (missing_keys rounds i marks ≡ ok ms)
      × ((k : ℕ) → pairs (is_key k) ms ≡ absent seen i end k)
      × ((f : ℕ → ℕ → ℕ) → ((k : ℕ) → f k 0 ≡ 0) → pairs f ms ≡ 0)
      × (length ms ≤ rounds)
unfolding missing_keys
missing_keys_lem seen zero i end marks e h = ([], refl, λ k. ground arith, λ f z. refl, omega arith)
missing_keys_lem seen (suc rounds) i end marks e h =
    let (ms, run, counts, free, short) =
      missing_keys_lem seen rounds (i + 1) end marks (omega arith) (λ j a b. h j (omega arith) b) in
    let at = h i (omega arith) (omega arith) in
    elim (Bool-cases (seen i)) [
      | inl s ↦ (
        ms,
        rw (at, missing_keys) (rw (run, s) refl),
        λ k. elim (ℕ_discrete k i) [
          | yes same ↦ ground (arith, counts k, s, ap seen same)
          | no apart ↦ ground (arith, counts k)
        ],
        free,
        omega arith,
      )
      | inr s ↦ (
        record { freq = 0; key = i } ∷ ms,
        rw (at, missing_keys) (rw (run, s) refl),
        λ k. elim (ℕ_discrete k i) [
          | yes same ↦ ground (arith, counts k, s, ap seen same)
          | no apart ↦ ground (arith, counts k)
        ],
        λ f z. omega (arith, free f z, z i),
        omega arith,
      )
    ]
