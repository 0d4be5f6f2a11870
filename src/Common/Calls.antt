-- ===== src/Common/Calls.antt =====
-- How a C++ call ends: with a value, in `panic` (or an uncaught exception), or in behaviour that
-- the language leaves undefined (an access out of range, a division by zero).
use Prim.Native.Nat.{ℕ, ◌^◌, ◌<◌}
use native.Mathlib.Omega.{arith}
use twig_kv.Common.Tests.{ltb, if◌then◌else◌}
use mathlib.Core.Path.{◌≡◌, refl, ap}

pub data Outcome {ℓ} (A : Type ℓ) : Type ℓ where
  ok : A → Outcome A
  panic : Outcome A
  undefined : Outcome A

infixl 5 ◌>>=◌
abbrev pub ◌>>=◌ {ℓ κ} : {A : Type ℓ} {B : Type κ} → Outcome A → (A → Outcome B) → Outcome B
call >>= rest = elim call [ ok a ↦ rest a | panic ↦ panic | undefined ↦ undefined ]

-- A call that returns, or one whose caller cannot return.
pub data Ends {ℓ} {A : Type ℓ} (m : Outcome A) : Type ℓ where
  returns : (a : A) → m ≡ ok a → Ends m
  panics : m ≡ panic → Ends m
  breaks : m ≡ undefined → Ends m

pub ends {ℓ} : {A : Type ℓ} (m : Outcome A) → Ends m
ends (ok a) = returns a refl
ends panic = panics refl
ends undefined = breaks refl

pub ok_injective {ℓ} : {A : Type ℓ} {a b : A} → ok a ≡ ok b → a ≡ b
ok_injective e = cc

pub bind_ok {ℓ κ} :
    {A : Type ℓ} {B : Type κ} {m : Outcome A} {a : A} (f : A → Outcome B)
    → m ≡ ok a
    → (m >>= f) ≡ f a
bind_ok f e = ap (λ n. n >>= f) e

-- `std::stoi` of a text that spells this number: it throws if the number is no `int`.
abbrev pub stoi : ℕ → Outcome ℕ
stoi n = if ltb n (2 ^ 31) then ok n else panic

pub stoi_lem : (n : ℕ) → n < 2 ^ 31 → stoi n ≡ ok n
stoi_lem n h = ground arith
