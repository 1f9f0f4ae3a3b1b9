-- ===== src/Prelude/Results.antt =====
-- Chains of `?` on a `Result`.
use mathlib.Core.Option.{Option, none, some}
use mathlib.Core.Path.{◌≡◌, refl}
use mathlib.Core.Logic.{◌⊎◌, inl, inr}
use another_rust_load_balanc.Prelude.Outcomes.{Result, ok, err}

infixl 5 ◌>>=◌
abbrev pub ◌>>=◌ {ℓ κ μ} :
    {A : Type ℓ} {B : Type κ} {E : Type μ} → Result A E → (A → Result B E) → Result B E
ok a >>= f = f a
err e >>= f = err e

-- `Option::ok_or`, and `Result::ok`.
abbrev pub ok_or {ℓ κ} : {T : Type ℓ} {E : Type κ} → Option T → E → Result T E
ok_or none e = err e
ok_or (some t) e = ok t

abbrev pub to_option {ℓ κ} : {T : Type ℓ} {E : Type κ} → Result T E → Option T
to_option (ok t) = some t
to_option (err e) = none

pub Result-cases {ℓ κ} :
    {A : Type ℓ} {E : Type κ} (r : Result A E) → ((a : A) × (r ≡ ok a)) ⊎ ((e : E) × (r ≡ err e))
Result-cases (ok a) = inl (a, refl)
Result-cases (err e) = inr (e, refl)

-- What a chain that ends well has passed through.
pub >>=-eq-ok {ℓ κ μ} :
    {A : Type ℓ} {B : Type κ} {E : Type μ} (r : Result A E) (next : A → Result B E) {last : B}
    → (r >>= next) ≡ ok last
    → (x : A) × (r ≡ ok x) × (next x ≡ ok last)
>>=-eq-ok (err _) next ends = cc
>>=-eq-ok (ok x) next ends = (x, refl, ends)

pub to_option-eq-some {ℓ κ} :
    {T : Type ℓ} {E : Type κ} (r : Result T E) {t : T} → to_option r ≡ some t → r ≡ ok t
to_option-eq-some (ok s) h = cc
to_option-eq-some (err e) h = cc

pub >>=-congr {ℓ κ μ} :
    {A : Type ℓ} {B : Type κ} {E : Type μ} (m : Result A E) (f g : A → Result B E)
    → ((a : A) → f a ≡ g a)
    → (m >>= f) ≡ (m >>= g)
>>=-congr (ok a) f g h = h a
>>=-congr (err e) f g h = refl
