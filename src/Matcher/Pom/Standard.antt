-- ===== src/Matcher/Pom/Standard.antt =====
-- An instance of the pom crate that computes: a parser is the function that it is.
use another_rust_load_balanc.Prelude.{
  ℕ, zero, suc, ◌<◌, ◌≤◌, ◌≡◌, refl, sym, ap, Text, true, false, not, Option, none, some, List, [],
  ◌∷◌, length, arith, eqb, ltb, strip_prefix, Option-cases, Bool-cases, inl, inr, if◌then◌else◌,
}
use another_rust_load_balanc.Prelude.Options.{◌>>=◌}
use another_rust_load_balanc.Matcher.Pom.{
  Pom, PomLaws, contains, satisfy, at_end, or_else, item_and, nonempty,
}

abbrev Parse : Type 0 → Type 0
Parse A = Text → Option (A × Text)

-- The items one after the other. An item of no length would be read forever.
unfoldable pub repeat_all : {A : Type 0} → ℕ → Parse A → Parse (List A)
repeat_all zero p s = elim (p s) [ none ↦ some ([], s) | some _ ↦ none ]
repeat_all (suc n) p s = elim (p s) [
  | none ↦ some ([], s)
  | some (a, rest) ↦ if ltb (length rest) (length s) then item_and a (repeat_all n p rest) else none
]

module _ {A : Type 0} (p : Parse A) where
  no_room : (m : ℕ) (s : Text) → length s ≤ 0 → repeat_all zero p s ≡ repeat_all m p s
  unfolding repeat_all
  no_room zero s h = refl
  no_room (suc m) s h = elim (Option-cases (p s)) [
    | inl ended ↦ rw (ended, repeat_all) refl
    | inr (b, read) ↦
        let longer : ltb (length b.1) (length s) ≡ false = ground arith in
        rw (read, longer, repeat_all) refl
  ]

  enough : (n m : ℕ) (s : Text) → length s ≤ n → length s ≤ m → repeat_all n p s ≡ repeat_all m p s
  unfolding repeat_all
  enough zero m s h k = no_room m s h
  enough (suc n) zero s h k = sym (no_room (suc n) s k)
  enough (suc n) (suc m) s h k = elim (Option-cases (p s)) [
    | inl ended ↦ rw (ended, repeat_all) refl
    | inr (b, read) ↦ elim (Bool-cases (ltb (length b.1) (length s))) [
      | inl shorter ↦
          rw (read, shorter, repeat_all)
            (ap (item_and b.0) (enough n m b.1 (ground arith) (ground arith)))
      | inr longer ↦ rw (read, longer, repeat_all) refl
    ]
  ]

  goes_on :
      (s : Text) {a : A} {rest : Text}
      → p s ≡ some (a, rest)
      → length rest < length s
      → repeat_all (length s) p s ≡ item_and a (repeat_all (length rest) p rest)
  unfolding repeat_all
  goes_on [] h less = absurd (omega arith)
  goes_on (c ∷ s) {a} {rest} h less =
      let shorter : ltb (length rest) (suc (length s)) ≡ true = ground arith in
      rw (h, shorter, repeat_all)
        (ap (item_and a) (enough (length s) (length rest) rest (omega arith) (omega arith)))

abbrev pub standard : Pom
standard = record {
  Parser = Parse;
  reply = λ {A} p. p;
  sym = λ c. satisfy (λ d. eqb c d);
  one_of = λ set. satisfy (contains set);
  none_of = λ set. satisfy (λ c. not (contains set c));
  tag = λ t s. (strip_prefix t s >>= λ rest. some (t, rest));
  end = at_end;
  mul = λ {A} {B} p q s. (p s >>= λ a. q a.1);
  sub = λ {A} {B} p q s. (p s >>= λ a. q a.1 >>= λ b. some (a.0, b.1));
  add = λ {A} {B} p q s. (p s >>= λ a. q a.1 >>= λ b. some ((a.0, b.0), b.1));
  bitor = λ {A} p q s. or_else (p s) (q s);
  repeat = λ {A} p s. repeat_all (length s) p s;
  repeat1 = λ {A} p s. nonempty (repeat_all (length s) p s);
  discard = λ {A} p s. (p s >>= λ a. some (tt, a.1));
  map = λ {A} {B} p f s. (p s >>= λ a. some (f a.0, a.1));
  convert = λ {A} {B} p f s. (p s >>= λ a. f a.0 >>= λ b. some (b, a.1));
  call = λ {A} f. f tt;
}

standard_ends :
    {A : Type 0} (p : Parse A) (s : Text) → p s ≡ none → repeat_all (length s) p s ≡ some ([], s)
unfolding repeat_all
standard_ends p [] h = rw (h, repeat_all) refl
standard_ends p (c ∷ s) h = rw (h, repeat_all) refl

pub standard_laws : PomLaws standard
standard_laws = record {
  reply-sym = λ c s. refl;
  reply-one_of = λ set s. refl;
  reply-none_of = λ set s. refl;
  reply-tag = λ t s. refl;
  reply-end = λ s. refl;
  reply-mul = λ {A} {B} p q s. refl;
  reply-sub = λ {A} {B} p q s. refl;
  reply-add = λ {A} {B} p q s. refl;
  reply-bitor = λ {A} p q s. refl;
  repeat_ends = λ {A} p s h. standard_ends p s h;
  repeat_goes_on = λ {A} p s {a} {rest} h less. goes_on p s h less;
  reply-repeat1 = λ {A} p s. refl;
  reply-discard = λ {A} p s. refl;
  reply-map = λ {A} {B} p f s. refl;
  reply-convert = λ {A} {B} p f s. refl;
  reply-call = λ {A} f s. refl;
}
