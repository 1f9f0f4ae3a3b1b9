-- ===== src/Matcher/Grammar.antt =====
-- The parser of rules in src/backend_pool_matcher.rs, written with the combinators of pom.
pub mod Reading
pub mod Strings
pub mod Spelling
pub mod Expressions
pub mod Sound
pub mod Lengths
pub mod Alternatives
pub mod Complete
pub mod Rules
pub mod Printing
pub mod Writable
use another_rust_load_balanc.Prelude.{
  ℕ, zero, suc, Text, codes, Bool, Option, none, some, List, [], ◌∷◌, ◌++◌, length, Outcome, unwrap,
  if◌then◌else◌,
}
use another_rust_load_balanc.Matcher.{ComparableRegex, BackendPoolMatcher}
use another_rust_load_balanc.Matcher.Pom.{Pom}

-- Which texts `Regex::new` and `Method::from_str` accept. What they make of a text gives it back.
pub record Accepted : Type 0 where
  pub regex : Text → Bool
  pub method : Text → Bool

abbrev pub concat : List Text → Text
concat [] = []
concat (s ∷ l) = s ++ concat l

-- `ComparableRegex::new`.
abbrev pub new : Accepted → Text → Option ComparableRegex
new accepted regex = if accepted.regex regex then some (record { as_str = regex }) else none

abbrev pub method_from_str : Accepted → Text → Option Text
method_from_str accepted method = if accepted.method method then some method else none

abbrev pub backslash : ℕ
backslash = 92

abbrev pub quote : ℕ
quote = 39

-- A space, a tab, a carriage return or a line feed.
abbrev pub spaces : Text
spaces = 32 ∷ 9 ∷ 13 ∷ 10 ∷ []

module _ (pom : Pom) where
  unfoldable pub space : pom.Parser (Unit {0})
  space = pom.discard (pom.repeat (pom.one_of spaces))

  unfoldable pub special_char : pom.Parser ℕ
  special_char = pom.bitor (pom.mul (pom.sym backslash) (pom.sym quote)) (pom.sym backslash)

  unfoldable pub char_string : pom.Parser Text
  unfolding special_char
  char_string =
      pom.map (pom.repeat1 (pom.bitor (pom.none_of (backslash ∷ quote ∷ [])) special_char))
        (λ chars. chars)

  unfoldable pub string : pom.Parser Text
  string =
      pom.map (pom.sub (pom.mul (pom.sym quote) (pom.repeat char_string)) (pom.sym quote)) concat

  -- The parsers `host`, `path` and, before their conversions, `host_regexp`, `path_regexp` and
  -- `method` are of one form.
  abbrev pub quoted : Text → pom.Parser Text
  quoted name = pom.sub (pom.mul (pom.tag name) string) (pom.sym b')')

  unfoldable pub host : pom.Parser Text
  host = quoted (codes "Host(")

  unfoldable pub path : pom.Parser Text
  path = quoted (codes "Path(")

  unfoldable pub query : pom.Parser (Text × Text)
  query =
      pom.sub
        (pom.add
          (pom.sub
            (pom.sub (pom.sub (pom.mul (pom.tag (codes "Query(")) string) space) (pom.sym b','))
            space)
          string)
        (pom.sym b')')

  -- The parsers that call `value` take it as an argument.
  abbrev pub chained :
      Text → pom.Parser BackendPoolMatcher → pom.Parser (BackendPoolMatcher × BackendPoolMatcher)
  chained operator value =
      pom.add (pom.sub (pom.sub (pom.sub (pom.call (λ _. value)) space) (pom.tag operator)) space)
        (pom.call (λ _. value))

  unfoldable pub and :
      pom.Parser BackendPoolMatcher → pom.Parser (BackendPoolMatcher × BackendPoolMatcher)
  and value = chained (codes "&&") value

  unfoldable pub or :
      pom.Parser BackendPoolMatcher → pom.Parser (BackendPoolMatcher × BackendPoolMatcher)
  or value = chained (codes "||") value

  unfoldable pub chained_expression : pom.Parser BackendPoolMatcher → pom.Parser BackendPoolMatcher
  unfolding and or
  chained_expression value =
      pom.bitor (pom.map (and value) (λ p. BackendPoolMatcher.and p.0 p.1))
        (pom.map (or value) (λ p. BackendPoolMatcher.or p.0 p.1))

  -- The last alternative of `value`.
  unfoldable pub parenthesised : pom.Parser BackendPoolMatcher → pom.Parser BackendPoolMatcher
  unfolding chained_expression
  parenthesised value =
      pom.sub
        (pom.sub
          (pom.mul (pom.mul (pom.sym b'(') space)
            (pom.bitor (chained_expression value) (pom.call (λ _. value))))
          space)
        (pom.sym b')')

module _ (pom : Pom) (accepted : Accepted) where
  unfoldable pub host_regexp : pom.Parser ComparableRegex
  host_regexp = pom.convert (quoted pom (codes "HostRegexp(")) (new accepted)

  unfoldable pub path_regexp : pom.Parser ComparableRegex
  path_regexp = pom.convert (quoted pom (codes "PathRegexp(")) (new accepted)

  unfoldable pub method : pom.Parser Text
  method = pom.convert (quoted pom (codes "Method(")) (method_from_str accepted)

  -- `value` calls itself behind a parenthesis. The number bounds the depth of these calls; a call
  -- beyond it is a parser that reads nothing.
  unfoldable pub value : ℕ → pom.Parser BackendPoolMatcher
  unfolding host path query host_regexp path_regexp method parenthesised
  value zero = pom.convert (pom.one_of []) (λ _. none)
  value (suc depth) =
      let inner = value depth in
      pom.bitor
        (pom.bitor
          (pom.bitor
            (pom.bitor
              (pom.bitor
                (pom.bitor (pom.map (host pom) BackendPoolMatcher.host)
                  (pom.map host_regexp BackendPoolMatcher.host_regexp))
                (pom.map method BackendPoolMatcher.method))
              (pom.map (path pom) BackendPoolMatcher.path))
            (pom.map path_regexp BackendPoolMatcher.path_regexp))
          (pom.map (query pom) (λ p. BackendPoolMatcher.query p.0 p.1)))
        (parenthesised pom inner)

  unfoldable pub top_level_expression : ℕ → pom.Parser BackendPoolMatcher
  top_level_expression depth = pom.bitor (chained_expression pom (value depth)) (value depth)

  unfoldable pub parser : ℕ → pom.Parser BackendPoolMatcher
  unfolding top_level_expression
  parser depth = pom.sub (pom.mul (space pom) (top_level_expression depth)) pom.end

  -- `From<String>`, whose `unwrap` panics where the text is no rule.
  unfoldable pub from : Text → Outcome BackendPoolMatcher
  from str =
      unwrap
        (elim (pom.reply (parser (suc (length str))) str) [ none ↦ none | some (m, _) ↦ some m ])
