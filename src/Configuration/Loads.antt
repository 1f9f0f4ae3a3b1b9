-- ===== src/Configuration/Loads.antt =====
-- Calls of src/configuration.rs that may fail, panic or wait, and that open challenges of the ACME
-- handler meanwhile.
use another_rust_load_balanc.Prelude.{
  Bool, true, false, if◌then◌else◌, ◌≡◌, refl, Result, ok, err, Outcome, done, panic,
}
use another_rust_load_balanc.Prelude.Tasks.{Task, ended, panicked, waiting, at_once}
use another_rust_load_balanc.Prelude.Tasks as Tasks
use another_rust_load_balanc.Tls.{IoError}
use another_rust_load_balanc.Acme.{AcmeHandler}

abbrev pub Loads : Type 0 → Type 0
Loads A = AcmeHandler → Task (Result A IoError × AcmeHandler)

-- What follows a result, if it is none of the errors.
abbrev pub and_next :
    {A B : Type 0}
    → (A → Loads B)
    → Result A IoError × AcmeHandler
    → Task (Result B IoError × AcmeHandler)
and_next f (ok a, handler) = f a handler
and_next f (err e, handler) = ended (err e, handler)

infixl 5 ◌>>=◌
abbrev pub ◌>>=◌ : {A B : Type 0} → Loads A → (A → Loads B) → Loads B
◌>>=◌ m f handler = Tasks.◌>>=◌ (m handler) (and_next f)

abbrev pub lift : {A : Type 0} → Result A IoError → Loads A
lift result handler = ended (result, handler)

abbrev pub lift_outcome : {A : Type 0} → Outcome (Result A IoError) → Loads A
lift_outcome (done result) handler = ended (result, handler)
lift_outcome panic handler = panicked

abbrev pub succeed : {A : Type 0} → Outcome A → Loads A
succeed (done a) handler = ended (ok a, handler)
succeed panic handler = panicked

-- The challenges that are open before are open afterwards, and no others.
abbrev pub Keeps : {A : Type 0} → AcmeHandler → Loads A → Type 0
Keeps {A} handler m =
    (result : Result A IoError) (after : AcmeHandler)
    → m handler ≡ ended (result, after)
    → after ≡ handler

module _ (handler : AcmeHandler) where
  pub lift-Keeps : {A : Type 0} (result : Result A IoError) → Keeps handler (lift result)
  lift-Keeps result r after h = cc

  pub lift_outcome-Keeps :
      {A : Type 0} (outcome : Outcome (Result A IoError)) → Keeps handler (lift_outcome outcome)
  lift_outcome-Keeps (done result) r after h = cc
  lift_outcome-Keeps panic r after h = cc

  next-Keeps :
      {A B : Type 0} (m : Loads A) (f : A → Loads B) {result : Result B IoError}
      {after : AcmeHandler}
      → Keeps handler m
      → ((a : A) → Keeps handler (f a))
      → (first : Result A IoError × AcmeHandler) → m handler ≡ ended first
      → and_next f first ≡ ended (result, after)
      → after ≡ handler
  next-Keeps m f {result} {after} keeps then_keeps (ok a, between) is last =
      then_keeps a result after (rw (keeps (ok a) between is) at last)
  next-Keeps m f keeps then_keeps (err e, between) is last = cc (keeps (err e) between is)

  pub bind-Keeps :
      {A B : Type 0} (m : Loads A) (f : A → Loads B)
      → Keeps handler m
      → ((a : A) → Keeps handler (f a))
      → Keeps handler (m >>= f)
  bind-Keeps m f keeps then_keeps result after h =
      let (a, first, last) = Tasks.>>=-eq-ended (m handler) (and_next f) h in
      next-Keeps m f keeps then_keeps a first last

module _ (handler : AcmeHandler) where
  pub succeed-Keeps : {A : Type 0} (outcome : Outcome A) → Keeps handler (succeed outcome)
  succeed-Keeps (done a) r after h = cc
  succeed-Keeps panic r after h = cc

  pub lift-bind-Keeps :
      {A B : Type 0} (result : Result A IoError) (f : A → Loads B)
      → ((a : A) → Keeps handler (f a))
      → Keeps handler (lift result >>= f)
  lift-bind-Keeps (ok a) f keeps = keeps a
  lift-bind-Keeps (err e) f keeps = lift-Keeps handler (err e)

  pub Keeps-if :
      {A : Type 0} (b : Bool) (m n : Loads A)
      → Keeps handler m
      → Keeps handler n
      → Keeps handler (if b then m else n)
  Keeps-if true m n h k = h
  Keeps-if false m n h k = k

-- What a chain that ends well has passed through.
pub >>=-eq-ok :
    {A B : Type 0} (m : Loads A) (f : A → Loads B) (handler : AcmeHandler) {b : B}
    {after : AcmeHandler}
    → (m >>= f) handler ≡ ended (ok b, after)
    → (a : A) × (between : AcmeHandler) × (m handler ≡ ended (ok a, between))
      × (f a between ≡ ended (ok b, after))
>>=-eq-ok {A} {B} m f handler {b} {after} h =
    let (a, first, last) = Tasks.>>=-eq-ended (m handler) (and_next f) h in go a first last
  where
    go :
        (a : Result A IoError × AcmeHandler)
        → m handler ≡ ended a
        → and_next f a ≡ ended (ok b, after)
        → (a : A) × (between : AcmeHandler) × (m handler ≡ ended (ok a, between))
          × (f a between ≡ ended (ok b, after))
    go (ok a, between) first last = (a, between, first, last)
    go (err e, between) first last = cc

pub lift-eq-ok :
    {A : Type 0} (result : Result A IoError) (handler : AcmeHandler) {a : A} {after : AcmeHandler}
    → lift result handler ≡ ended (ok a, after)
    → (result ≡ ok a) × (after ≡ handler)
lift-eq-ok result handler h = ((cc), (cc))

pub succeed-eq-ok :
    {A : Type 0} (outcome : Outcome A) (handler : AcmeHandler) {a : A} {after : AcmeHandler}
    → succeed outcome handler ≡ ended (ok a, after)
    → (outcome ≡ done a) × (after ≡ handler)
succeed-eq-ok (done b) handler h = ((cc), (cc))
succeed-eq-ok panic handler h = ((cc), (cc))

next_congr :
    {A B : Type 0} (f g : A → Loads B)
    → ((a : A) (handler : AcmeHandler) → f a handler ≡ g a handler)
    → (r : Result A IoError × AcmeHandler) → and_next f r ≡ and_next g r
next_congr f g h (ok a, handler) = h a handler
next_congr f g h (err e, handler) = refl

pub >>=-congr :
    {A B : Type 0} (m : Loads A) (f g : A → Loads B) (handler : AcmeHandler)
    → ((a : A) (between : AcmeHandler) → f a between ≡ g a between)
    → (m >>= f) handler ≡ (m >>= g) handler
>>=-congr m f g handler h = Tasks.>>=-congr (m handler) (and_next f) (and_next g) (next_congr f g h)
