-- ===== src/Matcher/Grammar/Spelling.antt =====
-- The texts that spell a rule for the parser of src/backend_pool_matcher.rs, as a grammar, and the
-- parser of values as functions on texts.
use another_rust_load_balanc.Prelude.{
  ℕ, zero, suc, ◌≡◌, Text, codes, Option, none, some, [], ◌∷◌, strip_prefix,
}
use another_rust_load_balanc.Prelude.Options.{◌>>=◌, >>=_assoc}
use another_rust_load_balanc.Matcher.{
  ComparableRegex, BackendPoolMatcher, host, host_regexp, method, path, path_regexp, query, and, or,
}
use another_rust_load_balanc.Matcher.Pom.{Pom, PomLaws, or_else, at_end}
use another_rust_load_balanc.Matcher.Grammar.{Accepted, new, method_from_str}
use another_rust_load_balanc.Matcher.Grammar as Grammar
use another_rust_load_balanc.Matcher.Grammar.Reading.{skip, next, read_string, read_call}
use another_rust_load_balanc.Matcher.Grammar.Strings.{
  sym-next, space-skip, string-read, quoted-read,
}

unfoldable pub read_query : Text → Option ((Text × Text) × Text)
read_query s = do
  argument ← strip_prefix (codes "Query(") s
  (key, s1) ← read_string argument
  s2 ← next b',' (skip s1)
  (value, s3) ← read_string (skip s2)
  rest ← next b')' s3
  some ((key, value), rest)

-- The text `s` begins with a value that spells the rule, and the last text is left: a test by
-- name, or a rule in parentheses with any spaces in between.
pub data Value (accepted : Accepted) : BackendPoolMatcher → Text → Text → Type 0 where
  host_of : {t s r : Text} → read_call (codes "Host(") s ≡ some (t, r) → Value accepted (host t) s r
  host_regexp_of :
      {t s r : Text} {regex : ComparableRegex}
      → read_call (codes "HostRegexp(") s ≡ some (t, r)
      → new accepted t ≡ some regex
      → Value accepted (host_regexp regex) s r
  method_of :
      {t s r m : Text}
      → read_call (codes "Method(") s ≡ some (t, r)
      → method_from_str accepted t ≡ some m
      → Value accepted (method m) s r
  path_of : {t s r : Text} → read_call (codes "Path(") s ≡ some (t, r) → Value accepted (path t) s r
  path_regexp_of :
      {t s r : Text} {regex : ComparableRegex}
      → read_call (codes "PathRegexp(") s ≡ some (t, r)
      → new accepted t ≡ some regex
      → Value accepted (path_regexp regex) s r
  query_of : {k v s r : Text} → read_query s ≡ some ((k, v), r) → Value accepted (query k v) s r
  one_inside :
      {m : BackendPoolMatcher} {s s1 s2 r : Text}
      → next b'(' s ≡ some s1
      → Value accepted m (skip s1) s2
      → next b')' (skip s2) ≡ some r
      → Value accepted m s r
  and_inside :
      {left right : BackendPoolMatcher} {s s1 s2 s3 s4 r : Text}
      → next b'(' s ≡ some s1
      → Value accepted left (skip s1) s2
      → strip_prefix (codes "&&") (skip s2) ≡ some s3
      → Value accepted right (skip s3) s4
      → next b')' (skip s4) ≡ some r
      → Value accepted (and left right) s r
  or_inside :
      {left right : BackendPoolMatcher} {s s1 s2 s3 s4 r : Text}
      → next b'(' s ≡ some s1
      → Value accepted left (skip s1) s2
      → strip_prefix (codes "||") (skip s2) ≡ some s3
      → Value accepted right (skip s3) s4
      → next b')' (skip s4) ≡ some r
      → Value accepted (or left right) s r

-- The whole text spells the rule: spaces, and a value or two values with an operator between them.
pub data Rule (accepted : Accepted) : BackendPoolMatcher → Text → Type 0 where
  one : {m : BackendPoolMatcher} {s : Text} → Value accepted m (skip s) [] → Rule accepted m s
  both :
      {left right : BackendPoolMatcher} {s s1 s2 : Text}
      → Value accepted left (skip s) s1
      → strip_prefix (codes "&&") (skip s1) ≡ some s2
      → Value accepted right (skip s2) []
      → Rule accepted (and left right) s
  either :
      {left right : BackendPoolMatcher} {s s1 s2 : Text}
      → Value accepted left (skip s) s1
      → strip_prefix (codes "||") (skip s1) ≡ some s2
      → Value accepted right (skip s2) []
      → Rule accepted (or left right) s

abbrev pub Read : Type 0
Read = Text → Option (BackendPoolMatcher × Text)

-- The alternatives of `value` that stand before the parenthesis.
unfoldable pub read_test : Accepted → Read
read_test accepted s =
    or_else
      (or_else
        (or_else
          (or_else
            (or_else (read_call (codes "Host(") s >>= λ a. some (host a.0, a.1)) (
              read_call (codes "HostRegexp(") s >>= λ a.
              new accepted a.0 >>= λ regex. some (host_regexp regex, a.1)))
            (read_call (codes "Method(") s >>= λ a.
              method_from_str accepted a.0 >>= λ m. some (method m, a.1)))
          (read_call (codes "Path(") s >>= λ a. some (path a.0, a.1)))
        (read_call (codes "PathRegexp(") s >>= λ a.
          new accepted a.0 >>= λ regex. some (path_regexp regex, a.1)))
      (read_query s >>= λ a. some (query a.0.0 a.0.1, a.1))

module _ (read : Read) where
  unfoldable pub read_chain :
      Text → (BackendPoolMatcher → BackendPoolMatcher → BackendPoolMatcher) → Read
  read_chain operator build s = do
    (left, s1) ← read s
    s2 ← strip_prefix operator (skip s1)
    (right, rest) ← read (skip s2)
    some (build left right, rest)

  unfoldable pub read_expression : Read
  read_expression s =
      or_else (or_else (read_chain (codes "&&") and s) (read_chain (codes "||") or s)) (read s)

  unfoldable pub read_parenthesised : Read
  read_parenthesised s = do
    inside ← next b'(' s
    (m, s1) ← read_expression (skip inside)
    rest ← next b')' (skip s1)
    some (m, rest)

module _ (pom : Pom) (laws : PomLaws pom) where
  open laws use {
    reply-tag, reply-mul, reply-sub, reply-add, reply-bitor, reply-map, reply-convert, reply-call,
    reply-one_of, reply-end,
  }

  query-read : (s : Text) → pom.reply (Grammar.query pom) s ≡ read_query s
  unfolding Grammar.query read_query
  query-read s = simp (
    reply-sub,
    reply-add,
    reply-mul,
    reply-tag,
    string-read pom laws,
    space-skip pom laws,
    sym-next pom laws,
    >>=_assoc,
  )

  module _ (value : pom.Parser BackendPoolMatcher) (s : Text) where
    pub expression-read :
        pom.reply (pom.bitor (Grammar.chained_expression pom value) value) s
        ≡ read_expression (pom.reply value) s
    unfolding Grammar.chained_expression Grammar.and Grammar.or read_expression read_chain
    expression-read = simp (
      reply-sub,
      reply-add,
      reply-tag,
      reply-bitor,
      reply-map,
      reply-call,
      space-skip pom laws,
      >>=_assoc,
    )

    parenthesised-read :
        pom.reply (Grammar.parenthesised pom value) s ≡ read_parenthesised (pom.reply value) s
    unfolding Grammar.parenthesised Grammar.chained_expression Grammar.and Grammar.or
        read_parenthesised read_expression read_chain
    parenthesised-read = simp (
      reply-sub,
      reply-mul,
      reply-add,
      reply-tag,
      reply-bitor,
      reply-map,
      reply-call,
      space-skip pom laws,
      sym-next pom laws,
      >>=_assoc,
    )

  module _ (accepted : Accepted) where
    pub value-read :
        (depth : ℕ) (s : Text)
        → pom.reply (Grammar.value pom accepted (suc depth)) s
          ≡ or_else
              (read_test accepted s)
              (read_parenthesised (pom.reply (Grammar.value pom accepted depth)) s)
    unfolding Grammar.value Grammar.host Grammar.path Grammar.host_regexp Grammar.path_regexp
        Grammar.method read_test
    value-read depth s = simp (
      reply-bitor,
      reply-map,
      reply-convert,
      quoted-read pom laws,
      query-read,
      parenthesised-read,
      >>=_assoc,
    )

    pub value-none : (s : Text) → pom.reply (Grammar.value pom accepted zero) s ≡ none
    unfolding Grammar.value
    value-none [] = simp (reply-convert, reply-one_of)
    value-none (c ∷ s) = simp (reply-convert, reply-one_of)

    pub parser-read :
        (depth : ℕ) (s : Text)
        → pom.reply (Grammar.parser pom accepted depth) s ≡ (
            read_expression (pom.reply (Grammar.value pom accepted depth)) (skip s) >>= λ a.
            at_end a.1 >>= λ b. some (a.0, b.1))
    unfolding Grammar.parser Grammar.top_level_expression
    parser-read depth s =
        simp (reply-sub, reply-mul, reply-end, space-skip pom laws, expression-read, >>=_assoc)
