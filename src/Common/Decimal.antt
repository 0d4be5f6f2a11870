-- ===== src/Common/Decimal.antt =====
-- Decimal numerals as texts, and the words of a text. A text is the list of its bytes.
use Prim.Native.Nat.{ℕ, zero, suc, ◌+◌, ◌-◌, ◌*◌, ◌/◌, ◌%◌, ◌^◌, ◌<◌, ◌≤◌, min}
use mathlib.Core.Path.{◌≡◌, refl, ap, ◌∙◌}
use mathlib.Core.Bool.{Bool, true, false, ◌&&◌, ◌||◌, not}
use mathlib.Core.Logic.{inl, inr}
use mathlib.Core.List.{List, [], ◌∷◌, ◌++◌}
use native.Mathlib.Omega.{arith}
use Prim.Native.Nat.pow
use native.Mathlib.Decide.{ℕ_discrete}
use twig_kv.Common.Lists.{length}
use twig_kv.Common.Tests.{ltb, leb, ◌==◌, if◌then◌else◌, Bool-cases}

-- The digits of a number before those of `rest`, for numbers below `10 ^ rounds`.
abbrev digits : ℕ → ℕ → List ℕ → List ℕ
digits zero n rest = rest
digits (suc rounds) n rest = elim (ltb n 10) [
  | true ↦ (b'0' + n) ∷ rest
  | false ↦ digits rounds (n / 10) ((b'0' + n % 10) ∷ rest)
]

-- `std::to_string` of a number of 64 bits, which has 20 digits at most.
unfoldable pub to_string : ℕ → List ℕ
to_string n = digits 20 n []

-- The number that digits spell after `n`.
unfoldable pub number : ℕ → List ℕ → ℕ
number n [] = n
number n (c ∷ cs) = number (n * 10 + (c - b'0')) cs

-- `isspace`
abbrev pub is_space : ℕ → Bool
is_space c = (c == b' ') || (leb 9 c && leb c 13)

abbrev pub is_digit : ℕ → Bool
is_digit c = leb b'0' c && leb c b'9'

-- The bytes up to the first one that `stops`, and those from it on.
unfoldable pub span : (ℕ → Bool) → List ℕ → List ℕ × List ℕ
span stops [] = ([], [])
span stops (c ∷ cs) =
    let rest = span stops cs in if stops c then ([], c ∷ cs) else (c ∷ rest.0, rest.1)

-- `std::ws`
unfoldable pub skip_space : List ℕ → List ℕ
skip_space [] = []
skip_space (c ∷ cs) = let rest = skip_space cs in if is_space c then rest else c ∷ cs

-- Every byte passes the test.
abbrev pub All : (ℕ → Bool) → List ℕ → Type 0
All test [] = Unit {0}
All test (c ∷ cs) = (test c ≡ true) × All test cs

pub span-append :
    (stops : ℕ → Bool) (xs : List ℕ) (c : ℕ) (ys : List ℕ)
    → All (λ x. not (stops x)) xs
    → stops c ≡ true
    → span stops (xs ++ c ∷ ys) ≡ (xs, c ∷ ys)
unfolding span
span-append stops [] c ys a e = rw e refl
span-append stops (x ∷ xs) c ys (h, a) e =
    let off : stops x ≡ false = ground arith in rw (off, span-append stops xs c ys a e) refl

pub skip_space_word : (c : ℕ) (cs : List ℕ) → is_space c ≡ false → skip_space (c ∷ cs) ≡ c ∷ cs
unfolding skip_space
skip_space_word c cs e = rw e refl

number-digits :
    (rounds n : ℕ) (rest : List ℕ)
    → n < 10 ^ rounds
    → 1 ≤ rounds
    → number 0 (digits rounds n rest) ≡ number n rest
unfolding number
number-digits zero n rest h some_round = absurd (omega arith)
number-digits (suc rounds) n rest h some_round = elim (Bool-cases (ltb n 10)) [
  | inl small ↦
      let same : 0 * 10 + (b'0' + n - b'0') ≡ n = omega arith in
      rw (small, digits) (ap (λ k. number k rest) same)
  | inr large ↦
      let ten : 10 ^ suc rounds ≡ 10 ^ rounds * 10 = pow.suc 10 rounds in
      let back : n / 10 * 10 + (b'0' + n % 10 - b'0') ≡ n = omega arith in
      rw (large, digits)
        (number-digits rounds (n / 10) ((b'0' + n % 10) ∷ rest) (omega (arith, ten))
            (some_left ten large)
          ∙ ap (λ k. number k rest) back)
]
  where
    some_left : 10 ^ suc rounds ≡ 10 ^ rounds * 10 → ltb n 10 ≡ false → 1 ≤ rounds
    some_left ten large = elim (ℕ_discrete rounds 0) [
      | yes z ↦
          let one : 10 ^ rounds ≡ 1 = ap (λ k. 10 ^ k) z in
          absurd (ground (arith, ten, one, large, h))
      | no pos ↦ omega arith
    ]

digits-All :
    (rounds n : ℕ) (rest : List ℕ) → All is_digit rest → All is_digit (digits rounds n rest)
digits-All zero n rest a = a
digits-All (suc rounds) n rest a = elim (Bool-cases (ltb n 10)) [
  | inl small ↦ rw (small, digits) (ground arith, a)
  | inr large ↦
      rw (large, digits) (digits-All rounds (n / 10) ((b'0' + n % 10) ∷ rest) (ground arith, a))
]

-- A number of 64 bits is read back from its numeral.
pub number-to_string : (n : ℕ) → n < 10 ^ 20 → number 0 (to_string n) ≡ n
unfolding to_string number
number-to_string n h = number-digits 20 n [] h (omega arith)

pub to_string-All : (n : ℕ) → All is_digit (to_string n)
unfolding to_string
to_string-All n = digits-All 20 n [] tt

length-digits :
    (rounds n : ℕ) (rest : List ℕ) → length rest + min 1 rounds ≤ length (digits rounds n rest)
length-digits zero n rest = omega arith
length-digits (suc rounds) n rest = elim (Bool-cases (ltb n 10)) [
  | inl small ↦ rw (small, digits) (omega arith)
  | inr large ↦
      rw (large, digits) (omega (arith, length-digits rounds (n / 10) ((b'0' + n % 10) ∷ rest)))
]

-- A numeral has a first digit.
pub to_string_cons : (n : ℕ) → (c : ℕ) × (cs : List ℕ) × (to_string n ≡ c ∷ cs)
unfolding to_string
to_string_cons n = cons (to_string n) refl
  where
    cons : (xs : List ℕ) → to_string n ≡ xs → (c : ℕ) × (cs : List ℕ) × (to_string n ≡ c ∷ cs)
    cons [] e = absurd (omega (arith, length-digits 20 n [], ap length e))
    cons (c ∷ cs) e = (c, cs, e)

pub All-append :
    (test : ℕ → Bool) (xs ys : List ℕ) → All test xs → All test ys → All test (xs ++ ys)
All-append test [] ys a b = b
All-append test (x ∷ xs) ys (h, a) b = (h, All-append test xs ys a b)

pub All-mono :
    (p q : ℕ → Bool) (xs : List ℕ) → ((c : ℕ) → p c ≡ true → q c ≡ true) → All p xs → All q xs
All-mono p q [] h a = tt
All-mono p q (x ∷ xs) h (e, a) = (h x e, All-mono p q xs h a)
