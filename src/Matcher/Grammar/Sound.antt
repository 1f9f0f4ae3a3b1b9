-- ===== src/Matcher/Grammar/Sound.antt =====
-- What the parser of src/backend_pool_matcher.rs reads, the grammar of rules allows.
use mathlib.Core.Path.{subst}
use mathlib.Core.Option.{Option}
use another_rust_load_balanc.Prelude.{
  ℕ, zero, suc, ◌≡◌, refl, sym, ◌∙◌, ap, Text, some, [], ◌∷◌, arith, inl, inr,
}
use another_rust_load_balanc.Prelude.Options.{◌>>=◌, and_then-eq-some}
use another_rust_load_balanc.Matcher.{
  BackendPoolMatcher, host, host_regexp, method, path, path_regexp, query,
}
use another_rust_load_balanc.Matcher.Pom.{Pom, PomLaws, at_end}
use another_rust_load_balanc.Matcher.Grammar.{Accepted, new, method_from_str, value, parser}
use another_rust_load_balanc.Matcher.Grammar.Reading.{skip, next}
use another_rust_load_balanc.Matcher.Grammar.Spelling.{
  Value, host_of, host_regexp_of, method_of, path_of, path_regexp_of, query_of, one_inside,
  and_inside, or_inside, Rule, one, both, either, Read, read_query, read_test, read_expression,
  value-read, value-none, parser-read,
}
use another_rust_load_balanc.Matcher.Grammar.Expressions.{
  same_pair, or_else-eq-some, chain, Expression, ands, ors, single, Expression-inversion,
  parenthesised_inversion,
}

abbrev built :
    {A : Type 0} → (A → BackendPoolMatcher) → Option (A × Text) → Option (BackendPoolMatcher × Text)
built build o = o >>= λ a. some (build a.0, a.1)

abbrev converted :
    {A B : Type 0}
    → (B → BackendPoolMatcher)
    → (A → Option B)
    → Option (A × Text)
    → Option (BackendPoolMatcher × Text)
converted build convert o = o >>= λ a. convert a.0 >>= λ b. some (build b, a.1)

module _ (accepted : Accepted) (s : Text) {r : Text} where
  -- What one alternative of `read_test` reads, of those without and with a conversion.
  plain_case :
      {A : Type 0} (build : A → BackendPoolMatcher) (o : Option (A × Text)) {m : BackendPoolMatcher}
      → built build o ≡ some (m, r)
      → ((a : A) → o ≡ some (a, r) → Value accepted (build a) s r)
      → Value accepted m s r
  plain_case build o h k =
      let (a, read, last) = and_then-eq-some o _ h in
      let same = same_pair last in
      subst (λ (m : BackendPoolMatcher). Value accepted m s r) same.0
        (k a.0 (read ∙ ap (λ (t : Text). some (a.0, t)) same.1))

  convert_case :
      {A B : Type 0} (build : B → BackendPoolMatcher) (convert : A → Option B)
      (o : Option (A × Text)) {m : BackendPoolMatcher}
      → converted build convert o ≡ some (m, r)
      → ((a : A) (b : B) → o ≡ some (a, r) → convert a ≡ some b → Value accepted (build b) s r)
      → Value accepted m s r
  convert_case build convert o h k =
      let (a, read, h1) = and_then-eq-some o _ h in
      let (b, converted, last) = and_then-eq-some (convert a.0) _ h1 in
      let same = same_pair last in
      subst (λ (m : BackendPoolMatcher). Value accepted m s r) same.0
        (k a.0 b (read ∙ ap (λ (t : Text). some (a.0, t)) same.1) converted)

  test_sound : {m : BackendPoolMatcher} → read_test accepted s ≡ some (m, r) → Value accepted m s r
  unfolding read_test
  test_sound h = elim (or_else-eq-some _ _ h) [
    | inr h ↦ plain_case (λ p. query p.0 p.1) (read_query s) h (λ a read. query_of read)
    | inl h ↦ elim (or_else-eq-some _ _ h) [
      | inr h ↦ convert_case path_regexp (new accepted) _ h (λ a b read is. path_regexp_of read is)
      | inl h ↦ elim (or_else-eq-some _ _ h) [
        | inr h ↦ plain_case path _ h (λ a read. path_of read)
        | inl h ↦ elim (or_else-eq-some _ _ h) [
          | inr h ↦
              convert_case method (method_from_str accepted) _ h (λ a b read is. method_of read is)
          | inl h ↦ elim (or_else-eq-some _ _ h) [
            | inr h ↦
                convert_case host_regexp (new accepted) _ h (λ a b read is. host_regexp_of read is)
            | inl h ↦ plain_case host _ h (λ a read. host_of read)
          ]
        ]
      ]
    ]
  ]

-- What reads the values only where there is one.
abbrev IsSound : Accepted → Read → Type 0
IsSound accepted read =
    (s r : Text) (m : BackendPoolMatcher) → read s ≡ some (m, r) → Value accepted m s r

module _ (accepted : Accepted) (read : Read) (sound : IsSound accepted read) where
  inside_sound :
      {m : BackendPoolMatcher} {s r : Text} (s1 s2 : Text)
      → next b'(' s ≡ some s1
      → next b')' (skip s2) ≡ some r
      → Expression read (skip s1) s2 m
      → Value accepted m s r
  inside_sound s1 s2 opens closes (ands left right (chain t1 t2 first op second)) =
      and_inside opens (sound (skip s1) t1 left first) op (sound (skip t2) s2 right second) closes
  inside_sound s1 s2 opens closes (ors left right (chain t1 t2 first op second)) =
      or_inside opens (sound (skip s1) t1 left first) op (sound (skip t2) s2 right second) closes
  inside_sound s1 s2 opens closes (single {m} alone) =
      one_inside opens (sound (skip s1) s2 m alone) closes

  whole_sound :
      {m : BackendPoolMatcher} (s : Text) → Expression read (skip s) [] m → Rule accepted m s
  whole_sound s (ands left right (chain t1 t2 first op second)) =
      both (sound (skip s) t1 left first) op (sound (skip t2) [] right second)
  whole_sound s (ors left right (chain t1 t2 first op second)) =
      either (sound (skip s) t1 left first) op (sound (skip t2) [] right second)
  whole_sound s (single {m} alone) = one (sound (skip s) [] m alone)

at_end-eq-some : (s : Text) {t : Text} → at_end s ≡ some (tt, t) → (s ≡ []) × (t ≡ [])
at_end-eq-some [] h = (refl, ground arith)
at_end-eq-some (c ∷ s) h = cc

module _ (pom : Pom) (laws : PomLaws pom) (accepted : Accepted) where
  abbrev read_value : ℕ → Read
  read_value depth = pom.reply (value pom accepted depth)

  value-IsSound : (depth : ℕ) → IsSound accepted (read_value depth)
  value-IsSound zero s r m h = cc (value-none pom laws accepted s)
  value-IsSound (suc depth) s r m h =
      elim (or_else-eq-some (read_test accepted s) _
        (sym (value-read pom laws accepted depth s) ∙ h)) [
          | inl test ↦ test_sound accepted s test
          | inr opened ↦
              let (s1, s2, opens, inside, closes) =
                parenthesised_inversion (read_value depth) s opened in
              inside_sound accepted (read_value depth) (value-IsSound depth) s1 s2 opens closes
                inside
        ]

  pub parser_sound :
      (depth : ℕ) (s : Text) {r : Text} {m : BackendPoolMatcher}
      → pom.reply (parser pom accepted depth) s ≡ some (m, r)
      → Rule accepted m s
  parser_sound depth s {r} {m} h =
      let (a, read, h1) =
        and_then-eq-some (read_expression (read_value depth) (skip s)) _
          (sym (parser-read pom laws accepted depth s) ∙ h) in
      let (b, ended, last) = and_then-eq-some (at_end a.1) _ h1 in
      let same = same_pair last in
      let none_left = at_end-eq-some a.1 ended in
      whole_sound accepted (read_value depth) (value-IsSound depth) s (
        Expression-inversion (read_value depth) (skip s)
          (read ∙ ap (λ (p : BackendPoolMatcher × Text). some p) (λ i. (same.0 i, none_left.0 i))))
