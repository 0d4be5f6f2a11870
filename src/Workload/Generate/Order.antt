-- ===== src/Workload/Generate/Order.antt =====
-- The order of the keys of the single-node distributions has every key as often as the keys have it.
use twig_kv.Common.{
  ℕ, zero, suc, ◌+◌, ◌-◌, ◌*◌, ◌/◌, ◌≤◌, ◌≡◌, refl, true, false, ◌∙◌, List, [], ◌∷◌, arith, ◌==◌,
  ltb, leb, ◌||◌, if◌then◌else◌, length, take, drop, tally, tally-append, length-append,
}
use twig_kv.Workload.Generate.{outside, hot_key_order, new_key_set}

-- How often a key is in a list.
abbrev pub occurs : ℕ → List ℕ → ℕ
occurs key keys = tally (λ k. if k == key then 1 else 0) keys

-- From index `i` on: `a` keys before the middle part, and `m` keys of it.
outside-rest :
    (start end key a m i : ℕ) (keys : List ℕ)
    → a ≡ start - i
    → m ≡ end - i - a
    → start ≤ end
    → occurs key (take m (drop a keys)) + occurs key (outside start end keys i) ≡ occurs key keys
unfolding outside
outside-rest start end key zero zero i [] ea em h = refl
outside-rest start end key zero (suc m) i [] ea em h = refl
outside-rest start end key (suc a) zero i [] ea em h = refl
outside-rest start end key (suc a) (suc m) i [] ea em h = refl
outside-rest start end key (suc a) m i (k ∷ ks) ea em h =
    let before : (ltb i start || leb end i) ≡ true = ground arith in
    let rest = outside-rest start end key a m (i + 1) ks (omega arith) (omega arith) h in
    rw before (omega (arith, rest))
outside-rest start end key zero (suc m) i (k ∷ ks) ea em h =
    let inside : (ltb i start || leb end i) ≡ false = ground arith in
    let rest = outside-rest start end key zero m (i + 1) ks (omega arith) (omega arith) h in
    rw inside (omega (arith, rest))
outside-rest start end key zero zero i (k ∷ ks) ea em h =
    let after : (ltb i start || leb end i) ≡ true = ground arith in
    let rest = outside-rest start end key zero zero (i + 1) ks (omega arith) (omega arith) h in
    rw after (omega (arith, rest))

-- The order of the keys that the single-node distributions draw from holds every key as often as the
-- keys do: none is lost and none is added.
pub hot_key_order-occurs :
    (key : ℕ) (keys : List ℕ) → occurs key (hot_key_order keys) ≡ occurs key keys
unfolding hot_key_order
hot_key_order-occurs key keys =
    let start = length keys / 3 in
    let end = 2 * length keys / 3 in
    tally-append (λ k. if k == key then 1 else 0) (new_key_set keys) (outside start end keys 0)
    ∙ outside-rest start end key start (end - start) 0 keys (omega arith) (omega arith)
        (omega arith)

length-outside-rest :
    (start end a m i : ℕ) (keys : List ℕ)
    → a ≡ start - i
    → m ≡ end - i - a
    → start ≤ end
    → length (take m (drop a keys)) + length (outside start end keys i) ≡ length keys
unfolding outside
length-outside-rest start end zero zero i [] ea em h = refl
length-outside-rest start end zero (suc m) i [] ea em h = refl
length-outside-rest start end (suc a) zero i [] ea em h = refl
length-outside-rest start end (suc a) (suc m) i [] ea em h = refl
length-outside-rest start end (suc a) m i (k ∷ ks) ea em h =
    let before : (ltb i start || leb end i) ≡ true = ground arith in
    let rest = length-outside-rest start end a m (i + 1) ks (omega arith) (omega arith) h in
    rw before (omega (arith, rest))
length-outside-rest start end zero (suc m) i (k ∷ ks) ea em h =
    let inside : (ltb i start || leb end i) ≡ false = ground arith in
    let rest = length-outside-rest start end zero m (i + 1) ks (omega arith) (omega arith) h in
    rw inside (omega (arith, rest))
length-outside-rest start end zero zero i (k ∷ ks) ea em h =
    let after : (ltb i start || leb end i) ≡ true = ground arith in
    let rest = length-outside-rest start end zero zero (i + 1) ks (omega arith) (omega arith) h in
    rw after (omega (arith, rest))

pub length-hot_key_order : (keys : List ℕ) → length (hot_key_order keys) ≡ length keys
unfolding hot_key_order
length-hot_key_order keys =
    let start = length keys / 3 in
    let end = 2 * length keys / 3 in
    length-append (new_key_set keys) (outside start end keys 0)
    ∙ length-outside-rest start end start (end - start) 0 keys (omega arith) (omega arith)
        (omega arith)
