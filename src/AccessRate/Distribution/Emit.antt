-- ===== src/AccessRate/Distribution/Emit.antt =====
-- The loops that fill the buckets and write the result.
use twig_kv.Common.{
  ℕ, zero, suc, ◌+◌, ◌*◌, ◌/◌, ◌%◌, ◌^◌, ◌<◌, ◌≤◌, ◌≡◌, refl, ap, ◌∙◌, List, [], ◌∷◌, ◌++◌, ok,
  undefined, true, false, ltb, ◌==◌, if◌then◌else◌, length, get_elem?, tally, tally-append,
  tally-sort, sort, Bool-cases, inl, inr, ◌⊎◌, some, arith, add64,
}
use twig_kv.AccessRate.{Entry, Cdf}
use twig_kv.AccessRate.Sums.{cumulative}
use twig_kv.AccessRate.Distribution.{
  KeyFreq, Bucket, push_bucket, fill_buckets, sum_freq, set_sum, emit_keys, key_greater,
  emit_buckets, distribute,
}

-- A sum over entries that reads their keys and frequencies.
abbrev pub over : (ℕ → ℕ → ℕ) → List Entry → ℕ
over f es = tally (λ e. f e.key e.freq) es

abbrev pub pairs : (ℕ → ℕ → ℕ) → List KeyFreq → ℕ
pairs f es = tally (λ e. f e.key e.freq) es

-- Counts the entries with a key.
abbrev pub is_key : ℕ → ℕ → ℕ → ℕ
is_key k key freq = if key == k then 1 else 0

abbrev pub the_freq : ℕ → ℕ → ℕ
the_freq key freq = freq

abbrev in_buckets : (ℕ → ℕ → ℕ) → List Bucket → ℕ
in_buckets f bs = tally (λ b. pairs f b.keys) bs

sum_freq_lem :
    (es : List KeyFreq) (t : ℕ)
    → t + pairs the_freq es < 2 ^ 64
    → sum_freq es t ≡ t + pairs the_freq es
unfolding sum_freq
sum_freq_lem [] t h = omega arith
sum_freq_lem (e ∷ es) t h =
    let same : add64 t e.freq ≡ t + e.freq = omega arith in
    rw same (omega (arith, sum_freq_lem es (t + e.freq) (omega arith)))

in_buckets-push :
    (f : ℕ → ℕ → ℕ) (p : ℕ) (kv : KeyFreq) (bs : List Bucket)
    → in_buckets f (push_bucket p kv bs) ≡ in_buckets f bs + f kv.key kv.freq
unfolding push_bucket
in_buckets-push f p kv [] = omega arith
in_buckets-push f p kv (b ∷ bs) = elim (Bool-cases (p == b.percentile)) [
  | inl same ↦
      rw same (omega (arith, tally-append (λ (e : KeyFreq). f e.key e.freq) b.keys (kv ∷ [])))
  | inr other ↦ elim (Bool-cases (ltb p b.percentile)) [
    | inl before ↦ rw (other, before) (omega arith)
    | inr after ↦ rw (other, after) (omega (arith, in_buckets-push f p kv bs))
  ]
]

fill_lem :
    (total : ℕ) (es : List KeyFreq) (c : ℕ) (bs : List Bucket)
    → 1 ≤ total
    → (bs' : List Bucket) × (fill_buckets total es c bs ≡ ok bs')
      × ((f : ℕ → ℕ → ℕ) → in_buckets f bs' ≡ in_buckets f bs + pairs f es)
unfolding fill_buckets
fill_lem total [] c bs h = (bs, refl, λ f. omega arith)
fill_lem total (e ∷ es) c bs h =
    let sum = add64 c e.freq in
    let p = (sum * 100) % 2 ^ 64 / total in
    let (bs', run, kept) = fill_lem total es sum (push_bucket p e bs) h in
    let some_total : (total == 0) ≡ false = ground arith in
    (bs', rw some_total run, λ f. omega (arith, kept f, in_buckets-push f p e bs))

-- The running total and the map agree with the entries written so far.
record Built (c : ℕ) (cdf : Cdf) : Type 0 where
  total : c ≡ over the_freq cdf.entries
  summed :
      (i : ℕ) (e : Entry)
      → get_elem? cdf.entries i ≡ some e
      → cdf.sums e.key ≡ cumulative cdf.entries i

get_elem?-snoc :
    (es : List Entry) (x e : Entry) (i : ℕ)
    → get_elem? (es ++ x ∷ []) i ≡ some e
    → ((get_elem? es i ≡ some e) × (cumulative (es ++ x ∷ []) i ≡ cumulative es i))
      ⊎ ((x ≡ e) × (cumulative (es ++ x ∷ []) i ≡ over the_freq es + x.freq))
get_elem?-snoc [] x e zero h = inr (cc, omega arith)
get_elem?-snoc [] x e (suc i) h = absurd cc
get_elem?-snoc (y ∷ es) x e zero h = inl (h, omega arith)
get_elem?-snoc (y ∷ es) x e (suc i) h = elim (get_elem?-snoc es x e i h) [
  | inl (at, same) ↦ inl (at, omega (arith, same))
  | inr (last, same) ↦ inr (last, omega (arith, same))
]

-- An entry is counted.
pub is_key-get :
    (es : List Entry) (i : ℕ) (e : Entry) → get_elem? es i ≡ some e → 1 ≤ over (is_key e.key) es
is_key-get [] i e h = absurd cc
is_key-get (y ∷ es) zero e h = let same : y.key ≡ e.key = cc in ground arith
is_key-get (y ∷ es) (suc i) e h = omega (arith, is_key-get es i e h)

Built-step :
    (c p : ℕ) (it : KeyFreq) (cdf : Cdf)
    → Built c cdf
    → over (is_key it.key) cdf.entries ≡ 0
    → over the_freq cdf.entries + it.freq < 2 ^ 64
    → Built (add64 c it.freq) (record {
      entries = cdf.entries ++ record { freq = it.freq; key = it.key; bucket = p } ∷ [];
      sums = set_sum it.key (add64 c it.freq) cdf.sums;
    })
Built-step c p it cdf b fresh fits =
    let x : Entry = record { freq = it.freq; key = it.key; bucket = p } in
    record {
      total = omega (arith, b.total, tally-append (λ (e : Entry). e.freq) cdf.entries (x ∷ []));
      summed = λ i e at. elim (get_elem?-snoc cdf.entries x e i at) [
        | inl (old, same) ↦
            let seen = is_key-get cdf.entries i e old in
            elim (Bool-cases (e.key == it.key)) [
              | inl clash ↦
                  absurd (ground (arith, ap (λ k. over (is_key k) cdf.entries) (key_eq e clash)))
              | inr apart ↦ rw (apart, same) (b.summed i e old)
            ]
        | inr (last, sum) ↦ ground (arith, ap (λ (r : Entry). r.key) last, sum, b.total)
      ];
    }
  where
    key_eq : (e : Entry) → (e.key == it.key) ≡ true → e.key ≡ it.key
    key_eq e h = ground arith

emit_keys_lem :
    (p : ℕ) (its : List KeyFreq) (c : ℕ) (cdf : Cdf)
    → Built c cdf
    → ((k : ℕ) → over (is_key k) cdf.entries + pairs (is_key k) its ≤ 1)
    → over the_freq cdf.entries + pairs the_freq its < 2 ^ 64
    → let (c', cdf') = emit_keys p its c cdf in
      Built c' cdf' × ((f : ℕ → ℕ → ℕ) → over f cdf'.entries ≡ over f cdf.entries + pairs f its)
unfolding emit_keys
emit_keys_lem p [] c cdf b once fits = (b, λ f. omega arith)
emit_keys_lem p (it ∷ its) c cdf b once fits =
    let x : Entry = record { freq = it.freq; key = it.key; bucket = p } in
    let grown : (f : ℕ → ℕ → ℕ)
        → over f (cdf.entries ++ x ∷ []) ≡ over f cdf.entries + f it.key it.freq =
      λ f. omega (arith, tally-append (λ (e : Entry). f e.key e.freq) cdf.entries (x ∷ [])) in
    let fresh : over (is_key it.key) cdf.entries ≡ 0 = ground (arith, once it.key) in
    let (b', kept) =
      emit_keys_lem p its (add64 c it.freq)
        (record {
          entries = cdf.entries ++ x ∷ [];
          sums = set_sum it.key (add64 c it.freq) cdf.sums;
        })
        (Built-step c p it cdf b fresh (omega (arith, fits)))
        (λ k. omega (arith, once k, grown (is_key k))) (omega (arith, fits, grown the_freq)) in
    (b', λ f. omega (arith, kept f, grown f))

emit_buckets_lem :
    (bs : List Bucket) (c : ℕ) (cdf : Cdf)
    → Built c cdf
    → ((k : ℕ) → over (is_key k) cdf.entries + in_buckets (is_key k) bs ≤ 1)
    → over the_freq cdf.entries + in_buckets the_freq bs < 2 ^ 64
    → (c' : ℕ) × Built c' (emit_buckets bs c cdf)
      × ((f : ℕ → ℕ → ℕ)
          → over f (emit_buckets bs c cdf).entries ≡ over f cdf.entries + in_buckets f bs)
unfolding emit_buckets
emit_buckets_lem [] c cdf b once fits = (c, b, λ f. omega arith)
emit_buckets_lem (x ∷ bs) c cdf b once fits =
    let its = sort key_greater x.keys in
    let same : (f : ℕ → ℕ → ℕ) → pairs f its ≡ pairs f x.keys =
      λ f. tally-sort key_greater (λ e. f e.key e.freq) x.keys in
    let (b₁, kept₁) =
      emit_keys_lem x.percentile its c cdf b (λ k. omega (arith, once k, same (is_key k)))
        (omega (arith, fits, same the_freq)) in
    let (sum, next) = emit_keys x.percentile its c cdf in
    let (c', b', kept) =
      emit_buckets_lem bs sum next b₁
        (λ k. omega (arith, once k, same (is_key k), kept₁ (is_key k)))
        (omega (arith, fits, same the_freq, kept₁ the_freq)) in
    (c', b', λ f. omega (arith, kept f, kept₁ f, same f))

-- A list with no key twice and some access gives a distribution whose map holds the cumulative
-- frequencies, with the keys and frequencies of the list.
pub distribute_lem :
    (all : List KeyFreq)
    → ((k : ℕ) → pairs (is_key k) all ≤ 1)
    → 1 ≤ pairs the_freq all
    → pairs the_freq all < 2 ^ 64
    → (cdf : Cdf) × (distribute all ≡ ok cdf)
      × ((f : ℕ → ℕ → ℕ) → over f cdf.entries ≡ pairs f all)
      × ((i : ℕ) (e : Entry)
          → get_elem? cdf.entries i ≡ some e
          → cdf.sums e.key ≡ cumulative cdf.entries i)
unfolding distribute
distribute_lem all once some_access fits =
    let total = sum_freq_lem all 0 (omega (arith, fits)) in
    let (bs, run, kept) = fill_lem (sum_freq all 0) all 0 [] (omega arith) in
    let (c, b, out) =
      emit_buckets_lem bs 0 (record { entries = []; sums = λ key. 0 })
        (record { total = refl; summed = λ i e at. absurd cc })
        (λ k. omega (arith, once k, kept (is_key k))) (omega (arith, fits, kept the_freq)) in
    (
      emit_buckets bs 0 (record { entries = []; sums = λ key. 0 }),
      rw run refl,
      λ f. omega (arith, out f, kept f),
      b.summed,
    )

-- Without an access the first percentile is a division by zero.
pub distribute-idle :
    (all : List KeyFreq) → pairs the_freq all ≡ 0 → 1 ≤ length all → distribute all ≡ undefined
unfolding distribute fill_buckets
distribute-idle [] h some_key = absurd (omega arith)
distribute-idle (e ∷ es) h some_key =
    let none_there : sum_freq (e ∷ es) 0 ≡ 0 =
      sum_freq_lem (e ∷ es) 0 (omega arith) ∙ omega (arith, h) in
    rw none_there refl
