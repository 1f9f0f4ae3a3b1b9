-- ===== src/Prelude/Panics.antt =====
-- Chains of calls that may panic.
use mathlib.Core.Path.{◌≡◌, refl}
use mathlib.Core.Logic.{◌⊎◌, inl, inr}
use mathlib.Core.Option.{Option, none, some}
use another_rust_load_balanc.Prelude.Outcomes.{Outcome, done, panic, unwrap}

infixl 5 ◌>>=◌
abbrev pub ◌>>=◌ {ℓ κ} : {A : Type ℓ} {B : Type κ} → Outcome A → (A → Outcome B) → Outcome B
done a >>= f = f a
panic >>= f = panic

pub Outcome-cases {ℓ} : {A : Type ℓ} (o : Outcome A) → ((a : A) × (o ≡ done a)) ⊎ (o ≡ panic)
Outcome-cases (done a) = inl (a, refl)
Outcome-cases panic = inr refl

-- What a chain that returns has passed through.
pub >>=-eq-done {ℓ κ} :
    {A : Type ℓ} {B : Type κ} (m : Outcome A) (f : A → Outcome B) {b : B}
    → (m >>= f) ≡ done b
    → (a : A) × (m ≡ done a) × (f a ≡ done b)
>>=-eq-done (done a) f h = (a, refl, h)
>>=-eq-done panic f h = cc

pub unwrap-eq-done {ℓ} : {A : Type ℓ} (o : Option A) {a : A} → unwrap o ≡ done a → o ≡ some a
unwrap-eq-done none h = cc
unwrap-eq-done (some b) h = cc

pub unwrap_unique {ℓ} :
    {A : Type ℓ} (o : Option A) {a b : A} → o ≡ some b → unwrap o ≡ done a → b ≡ a
unwrap_unique none p h = cc
unwrap_unique (some c) p h = cc

pub done-injective {ℓ} : {A : Type ℓ} {a b : A} → done a ≡ done b → a ≡ b
done-injective h = cc

pub >>=-congr {ℓ κ} :
    {A : Type ℓ} {B : Type κ} (m : Outcome A) (f g : A → Outcome B)
    → ((a : A) → f a ≡ g a)
    → (m >>= f) ≡ (m >>= g)
>>=-congr (done a) f g h = h a
>>=-congr panic f g h = refl

-- What a call returns, if it returns, has a property.
abbrev pub Holds : {A : Type 0} → (A → Type 0) → Outcome A → Type 0
Holds P (done a) = P a
Holds P panic = Unit

module _ {A B : Type 0} (Q : A → Type 0) (P : B → Type 0) (f : A → Outcome B) where
  pub Holds-bind : (m : Outcome A) → Holds Q m → ((a : A) → Q a → Holds P (f a)) → Holds P (m >>= f)
  Holds-bind (done a) q h = h a q
  Holds-bind panic q h = tt

module _ {A B : Type 0} (P : B → Type 0) (f : A → Outcome B) where
  pub Holds-then : (m : Outcome A) → ((a : A) → Holds P (f a)) → Holds P (m >>= f)
  Holds-then (done a) h = h a
  Holds-then panic h = tt

-- A call that returns.
abbrev pub Returns : {A : Type 0} → Outcome A → Type 0
Returns (done _) = Unit
Returns panic = ⊥

pub Returns-then :
    {A B : Type 0} (f : A → Outcome B) (m : Outcome A)
    → Returns m
    → ((a : A) → Returns (f a))
    → Returns (m >>= f)
Returns-then f (done a) r h = h a
Returns-then f panic r h = r
