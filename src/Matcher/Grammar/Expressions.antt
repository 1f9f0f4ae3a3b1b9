-- ===== src/Matcher/Grammar/Expressions.antt =====
-- How the parser of src/backend_pool_matcher.rs reads two values with an operator, and a rule in
-- parentheses, by what reads the values.
use mathlib.Core.Path.{subst}
use another_rust_load_balanc.Prelude.{
  ◌≡◌, refl, ◌∙◌, ap, Text, codes, Option, none, some, ◌⊎◌, inl, inr, strip_prefix,
  strip_prefix-eq-some,
}
use another_rust_load_balanc.Prelude.Options.{and_then-eq-some}
use another_rust_load_balanc.Matcher.{BackendPoolMatcher, and, or}
use another_rust_load_balanc.Matcher.Pom.{or_else}
use another_rust_load_balanc.Matcher.Grammar.Reading.{skip, next}
use another_rust_load_balanc.Matcher.Grammar.Spelling.{
  Read, read_chain, read_expression, read_parenthesised,
}

pub or_else-eq-some :
    {A : Type 0} (a b : Option A) {x : A} → or_else a b ≡ some x → (a ≡ some x) ⊎ (b ≡ some x)
or_else-eq-some none b h = inr h
or_else-eq-some (some a) b h = inl h

pub same_pair :
    {A B : Type 0} {a c : A} {b d : B}
    → ◌≡◌ {A = Option (A × B)} (some (a, b)) (some (c, d))
    → (a ≡ c) × (b ≡ d)
same_pair h = ((cc), (cc))

module _ (read : Read) where
  pub data Chain (operator s r : Text) (left right : BackendPoolMatcher) : Type 0 where
    chain :
        (s1 s2 : Text)
        → read s ≡ some (left, s1)
        → strip_prefix operator (skip s1) ≡ some s2
        → read (skip s2) ≡ some (right, r)
        → Chain operator s r left right

  pub chain_inversion :
      (operator : Text) (build : BackendPoolMatcher → BackendPoolMatcher → BackendPoolMatcher)
      (s : Text) {m : BackendPoolMatcher} {r : Text}
      → read_chain read operator build s ≡ some (m, r)
      → (left right : BackendPoolMatcher) × Chain operator s r left right × (build left right ≡ m)
  unfolding read_chain
  chain_inversion operator build s h =
      let (a, first, h1) = and_then-eq-some (read s) _ h in
      let (s2, op, h2) = and_then-eq-some (strip_prefix operator (skip a.1)) _ h1 in
      let (b, second, built) = and_then-eq-some (read (skip s2)) _ h2 in
      (
        a.0,
        b.0,
        chain a.1 s2 first op (second ∙ ap (λ (t : Text). some (b.0, t)) (same_pair built).1),
        (same_pair built).0,
      )

  pub chain_reads :
      (operator : Text) (build : BackendPoolMatcher → BackendPoolMatcher → BackendPoolMatcher)
      (s : Text) {r : Text} {left right : BackendPoolMatcher}
      → Chain operator s r left right
      → read_chain read operator build s ≡ some (build left right, r)
  unfolding read_chain
  chain_reads operator build s (chain s1 s2 first op second) = rw (first, op, second) refl

  pub chain_fails :
      (operator : Text) (build : BackendPoolMatcher → BackendPoolMatcher → BackendPoolMatcher)
      (s s1 : Text) {left : BackendPoolMatcher}
      → read s ≡ some (left, s1)
      → strip_prefix operator (skip s1) ≡ none
      → read_chain read operator build s ≡ none
  unfolding read_chain
  chain_fails operator build s s1 first no_op = rw (first, no_op) refl

  pub data Expression (s r : Text) : BackendPoolMatcher → Type 0 where
    ands :
        (left right : BackendPoolMatcher)
        → Chain (codes "&&") s r left right
        → Expression s r (and left right)
    ors :
        (left right : BackendPoolMatcher)
        → Chain (codes "||") s r left right
        → Expression s r (or left right)
    single : {m : BackendPoolMatcher} → read s ≡ some (m, r) → Expression s r m

  pub Expression-inversion :
      (s : Text) {r : Text} {m : BackendPoolMatcher}
      → read_expression read s ≡ some (m, r)
      → Expression s r m
  unfolding read_expression
  Expression-inversion s {r} h =
      elim (or_else-eq-some
        (or_else (read_chain read (codes "&&") and s) (read_chain read (codes "||") or s)) (read s)
        h) [
          | inr alone ↦ single alone
          | inl chained ↦ elim (or_else-eq-some (read_chain read (codes "&&") and s) _ chained) [
            | inl h ↦
                let (left, right, c, same) = chain_inversion (codes "&&") and s h in
                subst (λ (m : BackendPoolMatcher). Expression s r m) same (ands left right c)
            | inr h ↦
                let (left, right, c, same) = chain_inversion (codes "||") or s h in
                subst (λ (m : BackendPoolMatcher). Expression s r m) same (ors left right c)
          ]
        ]

  pub reads_ands :
      (s : Text) {r : Text} {left right : BackendPoolMatcher}
      → Chain (codes "&&") s r left right
      → read_expression read s ≡ some (and left right, r)
  unfolding read_expression
  reads_ands s c = rw (chain_reads (codes "&&") and s c) refl

  pub reads_ors :
      (s : Text) {r : Text} {left right : BackendPoolMatcher}
      → Chain (codes "||") s r left right
      → read_expression read s ≡ some (or left right, r)
  unfolding read_expression strip_prefix
  reads_ors s (chain s1 s2 first op second) =
      let bars = strip_prefix-eq-some (codes "||") (skip s1) op in
      let no_and : strip_prefix (codes "&&") (skip s1) ≡ none = rw bars refl in
      rw
        (
          chain_fails (codes "&&") and s s1 first no_and,
          chain_reads (codes "||") or s (chain s1 s2 first op second),
        )
        refl

  pub reads_single :
      (s r : Text) {m : BackendPoolMatcher}
      → read s ≡ some (m, r)
      → strip_prefix (codes "&&") (skip r) ≡ none
      → strip_prefix (codes "||") (skip r) ≡ none
      → read_expression read s ≡ some (m, r)
  unfolding read_expression
  reads_single s r h no_and no_or =
      rw (chain_fails (codes "&&") and s r h no_and, chain_fails (codes "||") or s r h no_or) h

  pub parenthesised_inversion :
      (s : Text) {r : Text} {m : BackendPoolMatcher}
      → read_parenthesised read s ≡ some (m, r)
      → (s1 s2 : Text) × (next b'(' s ≡ some s1)
        × Expression (skip s1) s2 m
        × (next b')' (skip s2) ≡ some r)
  unfolding read_parenthesised
  parenthesised_inversion s h =
      let (s1, open_, h1) = and_then-eq-some (next b'(' s) _ h in
      let (a, inside, h2) = and_then-eq-some (read_expression read (skip s1)) _ h1 in
      let (t, close, last) = and_then-eq-some (next b')' (skip a.1)) _ h2 in
      let same = same_pair last in
      (
        s1,
        a.1,
        open_,
        Expression-inversion (skip s1)
            (inside ∙ ap (λ (m : BackendPoolMatcher). some (m, a.1)) same.0),
        close ∙ ap some same.1,
      )
