-- ===== src/Prelude/Tasks.antt =====
-- Calls that wait for another party: they end, panic, or still wait when the rounds are spent that
-- are looked at.
use mathlib.Core.Path.{◌≡◌, refl}
use another_rust_load_balanc.Prelude.Outcomes.{Outcome, done, panic}

pub data Task {ℓ} (A : Type ℓ) : Type ℓ where
  ended : A → Task A
  panicked waiting : Task A

infixl 5 ◌>>=◌
abbrev pub ◌>>=◌ {ℓ κ} : {A : Type ℓ} {B : Type κ} → Task A → (A → Task B) → Task B
ended a >>= f = f a
panicked >>= f = panicked
waiting >>= f = waiting

-- A call that does not wait.
abbrev pub at_once {ℓ} : {A : Type ℓ} → Outcome A → Task A
at_once (done a) = ended a
at_once panic = panicked

pub >>=-eq-ended {ℓ κ} :
    {A : Type ℓ} {B : Type κ} (m : Task A) (f : A → Task B) {b : B}
    → (m >>= f) ≡ ended b
    → (a : A) × (m ≡ ended a) × (f a ≡ ended b)
>>=-eq-ended (ended a) f h = (a, refl, h)
>>=-eq-ended panicked f h = cc
>>=-eq-ended waiting f h = cc

pub at_once-eq-ended {ℓ} : {A : Type ℓ} (o : Outcome A) {a : A} → at_once o ≡ ended a → o ≡ done a
at_once-eq-ended (done a) h = cc
at_once-eq-ended panic h = cc

pub >>=-congr {ℓ κ} :
    {A : Type ℓ} {B : Type κ} (m : Task A) (f g : A → Task B)
    → ((a : A) → f a ≡ g a)
    → (m >>= f) ≡ (m >>= g)
>>=-congr (ended a) f g h = h a
>>=-congr panicked f g h = refl
>>=-congr waiting f g h = refl
