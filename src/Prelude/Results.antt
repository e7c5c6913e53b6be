-- ===== src/Prelude/Results.antt =====
-- Handlers that stop at the first failing check: a `return` with an error answer, or an exception.
use mathlib.Core.Path.{◌≡◌, refl}
use mathlib.Core.Logic.{◌⊎◌, inl, inr}
use mathlib.Core.Bool.{Bool, true, false}
use mathlib.Core.Option.{Option, none, some}

pub data Result {ℓ κ} (E : Type ℓ) (A : Type κ) : Type (ℓ ⊔ κ) where
  fail : E → Result E A
  pass : A → Result E A

module _ {ℓ κ μ} {E : Type ℓ} {A : Type κ} {B : Type μ} where
  infixl 5 ◌>>=◌
  abbrev pub ◌>>=◌ : Result E A → (A → Result E B) → Result E B
  fail reason >>= next = fail reason
  pass value >>= next = next value

module _ {ℓ κ} {E : Type ℓ} {A : Type κ} where
  -- `if (!test) return fail(reason)`
  abbrev pub require : Bool → E → Result E A → Result E A
  require false reason next = fail reason
  require true reason next = next

  -- The value, or the failure where there is none.
  abbrev pub present : Option A → E → Result E A
  present (some value) reason = pass value
  present none reason = fail reason

  pub require-eq-pass :
      (test : Bool) (reason : E) (next : Result E A) {value : A}
      → require test reason next ≡ pass value
      → (test ≡ true) × (next ≡ pass value)
  require-eq-pass false reason next h = cc
  require-eq-pass true reason next h = (refl, h)

-- What a passed step read, and that the rest passed.
pub present-eq-pass {ℓ κ μ} :
    {E : Type ℓ} {A : Type κ} {B : Type μ} (o : Option A) (reason : E) (next : A → Result E B)
    {b : B}
    → (present o reason >>= next) ≡ pass b
    → (value : A) × (o ≡ some value) × (next value ≡ pass b)
present-eq-pass (some value) reason next h = (value, refl, h)
present-eq-pass none reason next h = cc

-- A chain that passed: its first step passed, and so did the rest on its value.
pub bind-eq-pass {ℓ κ μ} :
    {E : Type ℓ} {A : Type κ} {B : Type μ} (m : Result E A) (next : A → Result E B) {b : B}
    → (m >>= next) ≡ pass b
    → (a : A) × (m ≡ pass a) × (next a ≡ pass b)
bind-eq-pass (fail reason) next h = cc
bind-eq-pass (pass a) next h = (a, refl, h)

pub Result-cases {ℓ κ} :
    {E : Type ℓ} {A : Type κ} (r : Result E A)
    → ((reason : E) × (r ≡ fail reason)) ⊎ ((value : A) × (r ≡ pass value))
Result-cases (fail reason) = inl (reason, refl)
Result-cases (pass value) = inr (value, refl)

pub pass-injective {ℓ κ} :
    {E : Type ℓ} {A : Type κ} {a b : A} → ◌≡◌ {A = Result E A} (pass a) (pass b) → a ≡ b
pass-injective h = cc

pub some-injective {ℓ} : {A : Type ℓ} {a b : A} → ◌≡◌ {A = Option A} (some a) (some b) → a ≡ b
some-injective h = cc
