-- ===== src/Matcher/Grammar/Rules.antt =====
-- The parser of src/backend_pool_matcher.rs reads exactly the rules of the grammar.
use another_rust_load_balanc.Prelude.{
  ℕ, suc, ◌<◌, ◌≡◌, ◌↔◌, refl, Text, Option, none, some, [], length, arith, done,
}
use another_rust_load_balanc.Prelude.Panics.{unwrap-eq-done}
use another_rust_load_balanc.Matcher.{BackendPoolMatcher}
use another_rust_load_balanc.Matcher.Pom.{Pom, PomLaws}
use another_rust_load_balanc.Matcher.Grammar.{Accepted, parser, from}
use another_rust_load_balanc.Matcher.Grammar.Spelling.{Rule}
use another_rust_load_balanc.Matcher.Grammar.Sound.{parser_sound}
use another_rust_load_balanc.Matcher.Grammar.Complete.{parser_complete}

reply-eq-some :
    (o : Option (BackendPoolMatcher × Text)) {m : BackendPoolMatcher}
    → (elim o as (λ _. Option BackendPoolMatcher) [ none ↦ none | some (m, _) ↦ some m ]) ≡ some m
    → (rest : Text) × (o ≡ some (m, rest))
reply-eq-some none h = cc
reply-eq-some (some (a, rest)) h = (rest, cc)

module _ (pom : Pom) (laws : PomLaws pom) (accepted : Accepted) (str : Text)
    (m : BackendPoolMatcher) where
  -- A text is read as a rule exactly when it spells the rule: behind any spaces one value, or two
  -- values with an operator between them, up to the end of the text.
  pub from_iff : (from pom accepted str ≡ done m) ↔ Rule accepted m str
  unfolding from
  from_iff = (
    λ h.
        let (rest, read) =
          reply-eq-some (pom.reply (parser pom accepted _) str) (unwrap-eq-done _ h) in
        parser_sound pom laws accepted _ str read,
    λ rule. rw (parser_complete pom laws accepted str rule (suc (length str)) (omega arith)) refl,
  )

  -- The depth of calls that the model allows is enough: beyond the length of the text a greater
  -- one reads the same rules.
  pub parser_depth :
      (depth : ℕ)
      → length str < depth
      → (pom.reply (parser pom accepted depth) str ≡ some (m, []))
        ↔ (from pom accepted str ≡ done m)
  parser_depth depth small = (
    λ h. from_iff.1 (parser_sound pom laws accepted depth str h),
    λ h. parser_complete pom laws accepted str (from_iff.0 h) depth small,
  )
