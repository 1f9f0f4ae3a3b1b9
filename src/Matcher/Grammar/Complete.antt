-- ===== src/Matcher/Grammar/Complete.antt =====
-- What the grammar of rules allows, the parser of src/backend_pool_matcher.rs reads.
use another_rust_load_balanc.Prelude.{
  ℕ, zero, suc, ◌<◌, ◌≡◌, refl, ◌∙◌, Text, codes, some, [], length, arith, strip_prefix,
}
use another_rust_load_balanc.Matcher.{BackendPoolMatcher}
use another_rust_load_balanc.Matcher.Pom.{Pom, PomLaws}
use another_rust_load_balanc.Matcher.Grammar.{Accepted, value, parser}
use another_rust_load_balanc.Matcher.Grammar.Reading.{skip, next, length-skip, length-next}
use another_rust_load_balanc.Matcher.Grammar.Spelling.{
  Value, host_of, host_regexp_of, method_of, path_of, path_regexp_of, query_of, one_inside,
  and_inside, or_inside, Rule, one, both, either, Read, read_test, read_expression,
  read_parenthesised, value-read, parser-read,
}
use another_rust_load_balanc.Matcher.Grammar.Expressions.{
  chain, reads_ands, reads_ors, reads_single,
}
use another_rust_load_balanc.Matcher.Grammar.Lengths.{length-strip_prefix, length-Value}
use another_rust_load_balanc.Matcher.Grammar.Alternatives.{
  next-eq-some, reads_host, reads_host_regexp, reads_method, reads_path, reads_path_regexp,
  reads_query, no_test,
}

-- What stands before a closing parenthesis or the end is read alone.
module _ (read : Read) (s : Text) {m : BackendPoolMatcher} where
  reads_before_close :
      (s1 : Text) {r : Text}
      → read s ≡ some (m, s1)
      → next b')' (skip s1) ≡ some r
      → read_expression read s ≡ some (m, s1)
  unfolding strip_prefix
  reads_before_close s1 h closes =
      let close = next-eq-some b')' (skip s1) closes in
      reads_single read s s1 h (rw close refl) (rw close refl)

  reads_to_end : read s ≡ some (m, []) → read_expression read s ≡ some (m, [])
  unfolding strip_prefix skip
  reads_to_end h = reads_single read s [] h refl refl

reads_parenthesised :
    (read : Read) (s s1 s2 : Text) {r : Text} {m : BackendPoolMatcher}
    → next b'(' s ≡ some s1
    → read_expression read (skip s1) ≡ some (m, s2)
    → next b')' (skip s2) ≡ some r
    → read_parenthesised read s ≡ some (m, r)
unfolding read_parenthesised
reads_parenthesised read s s1 s2 opens inside closes = rw (opens, inside, closes) refl

module _ (pom : Pom) (laws : PomLaws pom) (accepted : Accepted) where
  abbrev read_value : ℕ → Read
  read_value depth = pom.reply (value pom accepted depth)

  by_test :
      (depth : ℕ) (s : Text) {r : Text} {m : BackendPoolMatcher}
      → read_test accepted s ≡ some (m, r)
      → read_value (suc depth) s ≡ some (m, r)
  by_test depth s h = value-read pom laws accepted depth s ∙ rw h refl

  by_parenthesis :
      (depth : ℕ) (s s1 s2 : Text) {r : Text} {m : BackendPoolMatcher}
      → next b'(' s ≡ some s1
      → read_expression (read_value depth) (skip s1) ≡ some (m, s2)
      → next b')' (skip s2) ≡ some r
      → read_value (suc depth) s ≡ some (m, r)
  by_parenthesis depth s s1 s2 opens inside closes =
      value-read pom laws accepted depth s
      ∙ rw
          (
            no_test accepted s opens,
            reads_parenthesised (read_value depth) s s1 s2 opens inside closes,
          )
          refl

  -- The number of nested calls is below the length of the text.
  value_complete :
      (depth : ℕ) {m : BackendPoolMatcher} {s r : Text}
      → Value accepted m s r
      → length s < depth
      → read_value depth s ≡ some (m, r)
  value_complete zero v small = absurd (omega arith)
  value_complete (suc depth) (host_of {t} {s} read) small =
      by_test depth s (reads_host accepted s read)
  value_complete (suc depth) (host_regexp_of {t} {s} read is) small =
      by_test depth s (reads_host_regexp accepted s read is)
  value_complete (suc depth) (method_of {t} {s} read is) small =
      by_test depth s (reads_method accepted s read is)
  value_complete (suc depth) (path_of {t} {s} read) small =
      by_test depth s (reads_path accepted s read)
  value_complete (suc depth) (path_regexp_of {t} {s} read is) small =
      by_test depth s (reads_path_regexp accepted s read is)
  value_complete (suc depth) (query_of {k} {v} {s} read) small =
      by_test depth s (reads_query accepted s read)
  value_complete (suc depth) (one_inside {m} {s} {s1} {s2} opens inside closes) small =
      let few : length (skip s1) < depth =
        omega (arith, length-next b'(' s opens, length-skip s1) in
      by_parenthesis depth s s1 s2 opens
        (reads_before_close (read_value depth) (skip s1) s2 (value_complete depth inside few)
          closes)
        closes
  value_complete (suc depth)
        (and_inside {left} {right} {s} {s1} {s2} {s3} {s4} opens first op second closes) small =
      let few : length (skip s1) < depth =
        omega (arith, length-next b'(' s opens, length-skip s1) in
      let fewer : length (skip s3) < depth = omega (
        arith,
        length-Value accepted first,
        length-skip s2,
        length-strip_prefix (codes "&&") (skip s2) op,
        length-skip s3,
      ) in
      by_parenthesis depth s s1 s4 opens
        (reads_ands (read_value depth) (skip s1)
          (chain s2 s3 (value_complete depth first few) op (value_complete depth second fewer)))
        closes
  value_complete (suc depth)
        (or_inside {left} {right} {s} {s1} {s2} {s3} {s4} opens first op second closes) small =
      let few : length (skip s1) < depth =
        omega (arith, length-next b'(' s opens, length-skip s1) in
      let fewer : length (skip s3) < depth = omega (
        arith,
        length-Value accepted first,
        length-skip s2,
        length-strip_prefix (codes "||") (skip s2) op,
        length-skip s3,
      ) in
      by_parenthesis depth s s1 s4 opens
        (reads_ors (read_value depth) (skip s1)
          (chain s2 s3 (value_complete depth first few) op (value_complete depth second fewer)))
        closes

  -- The whole text.
  parser_reads :
      (depth : ℕ) (s : Text) {m : BackendPoolMatcher}
      → read_expression (read_value depth) (skip s) ≡ some (m, [])
      → pom.reply (parser pom accepted depth) s ≡ some (m, [])
  parser_reads depth s h = parser-read pom laws accepted depth s ∙ rw h refl

  pub parser_complete :
      {m : BackendPoolMatcher} (s : Text)
      → Rule accepted m s
      → (depth : ℕ) → length s < depth
      → pom.reply (parser pom accepted depth) s ≡ some (m, [])
  parser_complete s (one v) depth small =
      let few : length (skip s) < depth = omega (arith, length-skip s) in
      parser_reads depth s (reads_to_end (read_value depth) (skip s) (value_complete depth v few))
  parser_complete s (both {s1 = s1} {s2 = s2} first op second) depth small =
      let few : length (skip s) < depth = omega (arith, length-skip s) in
      let fewer : length (skip s2) < depth = omega (
        arith,
        length-Value accepted first,
        length-skip s1,
        length-strip_prefix (codes "&&") (skip s1) op,
        length-skip s2,
      ) in
      parser_reads depth s (
        reads_ands (read_value depth) (skip s)
          (chain s1 s2 (value_complete depth first few) op (value_complete depth second fewer)))
  parser_complete s (either {s1 = s1} {s2 = s2} first op second) depth small =
      let few : length (skip s) < depth = omega (arith, length-skip s) in
      let fewer : length (skip s2) < depth = omega (
        arith,
        length-Value accepted first,
        length-skip s1,
        length-strip_prefix (codes "||") (skip s1) op,
        length-skip s2,
      ) in
      parser_reads depth s (
        reads_ors (read_value depth) (skip s)
          (chain s1 s2 (value_complete depth first few) op (value_complete depth second fewer)))
