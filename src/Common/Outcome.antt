-- ===== src/Common/Outcome.antt =====
-- The outcome of code that may raise: a value, or the exception.
use mathlib.Core.Path.{◌≡◌, refl}
use mathlib.Core.Logic.{◌⊎◌, inl, inr}

pub data Outcome {ℓ κ} (E : Type κ) (A : Type ℓ) : Type (ℓ ⊔ κ) where
  ok : A → Outcome E A
  raise : E → Outcome E A

infixl 5 ◌>>=◌ ◌>>◌
abbrev pub ◌>>=◌ {μ ℓ κ} :
    {E : Type μ} {A : Type ℓ} {B : Type κ} → Outcome E A → (A → Outcome E B) → Outcome E B
ok value >>= next = next value
raise fault >>= next = raise fault

abbrev pub ◌>>◌ {μ κ} : {E : Type μ} {B : Type κ} → Outcome E (Unit {0}) → Outcome E B → Outcome E B
ok _ >> behind = behind
raise fault >> behind = raise fault

-- A chain that did not raise has a first value, which the rest goes on with.
pub >>=-eq-ok {μ ℓ κ} :
    {E : Type μ} {A : Type ℓ} {B : Type κ} (first : Outcome E A) (next : A → Outcome E B) {last : B}
    → (first >>= next) ≡ ok last
    → (value : A) × (first ≡ ok value) × (next value ≡ ok last)
>>=-eq-ok (ok value) next chained = (value, refl, chained)
>>=-eq-ok (raise fault) next chained = cc

module _ {ℓ κ} {E : Type κ} {A : Type ℓ} where
  -- To split on a computed outcome and keep the equation.
  pub Outcome-cases : (m : Outcome E A) → ((a : A) × (m ≡ ok a)) ⊎ ((e : E) × (m ≡ raise e))
  Outcome-cases (ok a) = inl (a, refl)
  Outcome-cases (raise e) = inr (e, refl)

  pub ok-injective : {a b : A} → ◌≡◌ {A = Outcome E A} (ok a) (ok b) → a ≡ b
  ok-injective h = cc
