-- ===== src/Matcher/Pom.antt =====
-- The pom crate, as src/backend_pool_matcher.rs uses it: the combinators, and what a parser reads.
pub mod Standard
use another_rust_load_balanc.Prelude.{
  ℕ, ◌<◌, ◌≡◌, Text, Bool, not, Option, none, some, List, [], ◌∷◌, length, eqb, any, strip_prefix,
  if◌then◌else◌,
}
use another_rust_load_balanc.Prelude.Options.{◌>>=◌}

-- `mul`, `sub`, `add` and `bitor` are the operators `*`, `-`, `+` and `|`; `repeat` and `repeat1`
-- are the repetitions from none on and from one on.
pub record Pom : Type 1 where
  pub Parser : Type 0 → Type 0
  -- What a parser makes of a text: a value and the text that is left, or an error.
  pub reply : {A : Type 0} → Parser A → Text → Option (A × Text)
  pub sym : ℕ → Parser ℕ
  pub one_of : Text → Parser ℕ
  pub none_of : Text → Parser ℕ
  pub tag : Text → Parser Text
  pub end : Parser (Unit {0})
  pub mul : {A B : Type 0} → Parser A → Parser B → Parser B
  pub sub : {A B : Type 0} → Parser A → Parser B → Parser A
  pub add : {A B : Type 0} → Parser A → Parser B → Parser (A × B)
  pub bitor : {A : Type 0} → Parser A → Parser A → Parser A
  pub repeat : {A : Type 0} → Parser A → Parser (List A)
  pub repeat1 : {A : Type 0} → Parser A → Parser (List A)
  pub discard : {A : Type 0} → Parser A → Parser (Unit {0})
  pub map : {A B : Type 0} → Parser A → (A → B) → Parser B
  pub convert : {A B : Type 0} → Parser A → (A → Option B) → Parser B
  pub call : {A : Type 0} → (Unit {0} → Parser A) → Parser A

abbrev pub contains : Text → ℕ → Bool
contains set c = any (λ d. eqb d c) set

-- A symbol that passes a test.
abbrev pub satisfy : (ℕ → Bool) → Text → Option (ℕ × Text)
satisfy test [] = none
satisfy test (c ∷ s) = if test c then some (c, s) else none

abbrev pub at_end : Text → Option (Unit {0} × Text)
at_end [] = some (tt, [])
at_end (c ∷ s) = none

abbrev pub or_else : {A : Type 0} → Option A → Option A → Option A
or_else (some a) other = some a
or_else none other = other

-- A repetition goes on after each item, and ends where no further item can be read.
abbrev pub item_and : {A : Type 0} → A → Option (List A × Text) → Option (List A × Text)
item_and a none = none
item_and a (some (items, rest)) = some (a ∷ items, rest)

abbrev pub nonempty : {A : Type 0} → Option (List A × Text) → Option (List A × Text)
nonempty none = none
nonempty (some ([], rest)) = none
nonempty (some (a ∷ items, rest)) = some (a ∷ items, rest)

pub record PomLaws (pom : Pom) : Type 1 where
  pub reply-sym : (c : ℕ) (s : Text) → pom.reply (pom.sym c) s ≡ satisfy (λ d. eqb c d) s
  pub reply-one_of : (set s : Text) → pom.reply (pom.one_of set) s ≡ satisfy (contains set) s
  pub reply-none_of :
      (set s : Text) → pom.reply (pom.none_of set) s ≡ satisfy (λ c. not (contains set c)) s
  pub reply-tag :
      (t s : Text) → pom.reply (pom.tag t) s ≡ (strip_prefix t s >>= λ rest. some (t, rest))
  pub reply-end : (s : Text) → pom.reply pom.end s ≡ at_end s
  pub reply-mul :
      {A B : Type 0} (p : pom.Parser A) (q : pom.Parser B) (s : Text)
      → pom.reply (pom.mul p q) s ≡ (pom.reply p s >>= λ a. pom.reply q a.1)
  pub reply-sub :
      {A B : Type 0} (p : pom.Parser A) (q : pom.Parser B) (s : Text)
      → pom.reply (pom.sub p q) s
        ≡ (pom.reply p s >>= λ a. pom.reply q a.1 >>= λ b. some (a.0, b.1))
  pub reply-add :
      {A B : Type 0} (p : pom.Parser A) (q : pom.Parser B) (s : Text)
      → pom.reply (pom.add p q) s
        ≡ (pom.reply p s >>= λ a. pom.reply q a.1 >>= λ b. some ((a.0, b.0), b.1))
  pub reply-bitor :
      {A : Type 0} (p q : pom.Parser A) (s : Text)
      → pom.reply (pom.bitor p q) s ≡ or_else (pom.reply p s) (pom.reply q s)
  pub repeat_ends :
      {A : Type 0} (p : pom.Parser A) (s : Text)
      → pom.reply p s ≡ none
      → pom.reply (pom.repeat p) s ≡ some ([], s)
  pub repeat_goes_on :
      {A : Type 0} (p : pom.Parser A) (s : Text) {a : A} {rest : Text}
      → pom.reply p s ≡ some (a, rest)
      → length rest < length s
      → pom.reply (pom.repeat p) s ≡ item_and a (pom.reply (pom.repeat p) rest)
  pub reply-repeat1 :
      {A : Type 0} (p : pom.Parser A) (s : Text)
      → pom.reply (pom.repeat1 p) s ≡ nonempty (pom.reply (pom.repeat p) s)
  pub reply-discard :
      {A : Type 0} (p : pom.Parser A) (s : Text)
      → pom.reply (pom.discard p) s ≡ (pom.reply p s >>= λ a. some (tt, a.1))
  pub reply-map :
      {A B : Type 0} (p : pom.Parser A) (f : A → B) (s : Text)
      → pom.reply (pom.map p f) s ≡ (pom.reply p s >>= λ a. some (f a.0, a.1))
  pub reply-convert :
      {A B : Type 0} (p : pom.Parser A) (f : A → Option B) (s : Text)
      → pom.reply (pom.convert p f) s ≡ (pom.reply p s >>= λ a. f a.0 >>= λ b. some (b, a.1))
  pub reply-call :
      {A : Type 0} (f : Unit {0} → pom.Parser A) (s : Text)
      → pom.reply (pom.call f) s ≡ pom.reply (f tt) s
