-- ===== src/Prelude/Results.antt =====
-- Results of C++ code: a value, a thrown exception, or undefined behaviour.
use Prim.Native.Nat.{ℕ}
use Prim.Native.String.{String}
use mathlib.Core.Path.{◌≡◌, refl}
use mathlib.Core.Logic.{◌⊎◌, inl, inr}
use mathlib.Core.Bool.{Bool, true, false}
use libudjatnetwork.Prelude.Tests.{◌==◌}

-- A C `int`: `negsuc n` is -(n + 1).
pub data ℤ : Type 0 where
  pos : ℕ → ℤ
  negsuc : ℕ → ℤ

abbrev pub minus_one : ℤ
minus_one = negsuc 0

abbrev pub int_eq : ℤ → ℤ → Bool
int_eq (pos a) (pos b) = a == b
int_eq (negsuc a) (negsuc b) = a == b
int_eq _ _ = false

abbrev pub is_negative : ℤ → Bool
is_negative (pos n) = false
is_negative (negsuc n) = true

-- The exceptions of the source, by class. A `system_error` carries its `errno` value.
pub data Error : Type 0 where
  runtime_error : String → Error
  system_error : ℤ → Error
  dns_exception : ℤ → Error
  invalid_argument : Error
  out_of_range : Error

-- `fault` is undefined behaviour.
pub data Result {ℓ} (A : Type ℓ) : Type ℓ where
  ok : A → Result A
  err : Error → Result A
  fault : Result A

infixl 5 ◌>>=◌
abbrev pub ◌>>=◌ {ℓ κ} : {A : Type ℓ} {B : Type κ} → Result A → (A → Result B) → Result B
ok a >>= f = f a
err e >>= f = err e
fault >>= f = fault

-- What a normal result satisfies; an exception and a fault satisfy anything.
abbrev pub OnOk {ℓ κ} : {A : Type ℓ} → (A → Type κ) → Result A → Type κ
OnOk P (ok a) = P a
OnOk P (err e) = Unit
OnOk P fault = Unit

-- A normal result, and what it satisfies.
abbrev pub Returns {ℓ} : {A : Type ℓ} → (A → Type 0) → Result A → Type 0
Returns P (ok a) = P a
Returns P (err e) = ⊥
Returns P fault = ⊥

pub OnOk-mono {ℓ} :
    {A : Type ℓ} (P Q : A → Type 0) → ((a : A) → P a → Q a) → (r : Result A) → OnOk P r → OnOk Q r
OnOk-mono P Q f (ok a) h = f a h
OnOk-mono P Q f (err e) h = tt
OnOk-mono P Q f fault h = tt

pub Returns-mono {ℓ} :
    {A : Type ℓ} (P Q : A → Type 0)
    → ((a : A) → P a → Q a)
    → (r : Result A) → Returns P r
    → Returns Q r
Returns-mono P Q f (ok a) h = f a h
Returns-mono P Q f (err e) h = h
Returns-mono P Q f fault h = h

pub OnOk-both {ℓ} :
    {A : Type ℓ} (P Q : A → Type 0) (r : Result A) → OnOk P r → OnOk Q r → OnOk (λ a. P a × Q a) r
OnOk-both P Q (ok a) h k = (h, k)
OnOk-both P Q (err e) h k = tt
OnOk-both P Q fault h k = tt

-- A result that is neither an exception nor undefined behaviour satisfies what normal results do.
pub Returns-OnOk {ℓ} :
    {A : Type ℓ} (P Q : A → Type 0) (r : Result A)
    → Returns P r
    → OnOk Q r
    → Returns (λ a. P a × Q a) r
Returns-OnOk P Q (ok a) h k = (h, k)
Returns-OnOk P Q (err e) h k = h
Returns-OnOk P Q fault h k = h

-- A call that goes on with a result: what holds of the result is known to what follows.
pub Returns-bind {ℓ κ} :
    {A : Type ℓ} {B : Type κ} (P : A → Type 0) (Q : B → Type 0) (r : Result A) (f : A → Result B)
    → Returns P r
    → ((a : A) → P a → Returns Q (f a))
    → Returns Q (r >>= f)
Returns-bind P Q (ok a) f h k = k a h
Returns-bind P Q (err e) f h k = absurd h
Returns-bind P Q fault f h k = absurd h

pub OnOk-bind {ℓ κ} :
    {A : Type ℓ} {B : Type κ} (P : A → Type 0) (Q : B → Type 0) (r : Result A) (f : A → Result B)
    → OnOk P r
    → ((a : A) → P a → OnOk Q (f a))
    → OnOk Q (r >>= f)
OnOk-bind P Q (ok a) f h k = k a h
OnOk-bind P Q (err e) f h k = tt
OnOk-bind P Q fault f h k = tt

pub Result-cases {ℓ} :
    {A : Type ℓ} (r : Result A) → ((a : A) × (r ≡ ok a)) ⊎ ((e : Error) × (r ≡ err e)) ⊎ (r ≡ fault)
Result-cases (ok a) = inl (a, refl)
Result-cases (err e) = inr (inl (e, refl))
Result-cases fault = inr (inr refl)
