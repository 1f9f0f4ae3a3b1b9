-- ===== src/Matcher/Grammar/Writable.antt =====
-- Which rules a text can spell for src/backend_pool_matcher.rs.
use another_rust_load_balanc.Prelude.{
  ◌≡◌, refl, ap, Text, codes, Bool, true, false, some, [], ◌∷◌, eqb, arith, done, Bool-cases, inl,
  inr, strip_prefix,
}
use mathlib.Core.Path.{subst}
use another_rust_load_balanc.Prelude.Options.{and_then-eq-some}
use another_rust_load_balanc.Matcher.{ComparableRegex, BackendPoolMatcher}
use another_rust_load_balanc.Matcher.Pom.{Pom, PomLaws}
use another_rust_load_balanc.Matcher.Grammar.{Accepted, new, quote, backslash, from}
use another_rust_load_balanc.Matcher.Grammar.Reading.{skip, next, chars, read_string, read_call}
use another_rust_load_balanc.Matcher.Grammar.Spelling.{
  Value, host_of, host_regexp_of, method_of, path_of, path_regexp_of, query_of, one_inside,
  and_inside, or_inside, Rule, one, both, either, read_query,
}
use another_rust_load_balanc.Matcher.Grammar.Expressions.{same_pair}
use another_rust_load_balanc.Matcher.Grammar.Rules.{from_iff}
use another_rust_load_balanc.Matcher.Grammar.Printing.{
  is_open, IsWritable, print, print-Rule, new-eq-some, method_from_str-eq-some,
}

-- Behind a backslash at least that is read.
is_open-chars : (s : Text) → is_open true (chars true s).0 ≡ is_open false (chars true s).0
unfolding chars
is_open-chars [] = refl
is_open-chars (c ∷ s) = elim (Bool-cases (eqb c quote)) [
  | inl q ↦ rw q refl
  | inr n ↦ elim (Bool-cases (eqb c backslash)) [ inl b ↦ rw (n, b) refl | inr p ↦ rw (n, p) refl ]
]

chars_closed :
    (before : Bool) (s : Text) {rest : Text}
    → next quote (chars before s).1 ≡ some rest
    → is_open false (chars before s).0 ≡ false
unfolding chars
chars_closed false [] h = refl
chars_closed true [] h = unfold next in cc
chars_closed false (c ∷ s) {rest} h =
    ground (arith, chars_closed true s {rest = rest}, chars_closed false s {rest = rest})
chars_closed true (c ∷ s) {rest} h =
    ground (
      arith,
      chars_closed true s {rest = rest},
      chars_closed false s {rest = rest},
      is_open-chars s,
    )

read_string_closed : (s : Text) {t r : Text} → read_string s ≡ some (t, r) → is_open false t ≡ false
unfolding read_string
read_string_closed s h =
    let (inside, opens, h1) = and_then-eq-some (next quote s) _ h in
    let (rest, closes, last) = and_then-eq-some (next quote (chars false inside).1) _ h1 in
    subst (λ (t : Text). is_open false t ≡ false) (same_pair last).0
      (chars_closed false inside closes)

read_call_closed :
    (name s : Text) {t r : Text} → read_call name s ≡ some (t, r) → is_open false t ≡ false
unfolding read_call
read_call_closed name s h =
    let (argument, begins, h1) = and_then-eq-some (strip_prefix name s) _ h in
    let (a, read, h2) = and_then-eq-some (read_string argument) _ h1 in
    let (rest, closes, last) = and_then-eq-some (next b')' a.1) _ h2 in
    subst (λ (t : Text). is_open false t ≡ false) (same_pair last).0
      (read_string_closed argument read)

read_query_closed :
    (s : Text) {k v r : Text}
    → read_query s ≡ some ((k, v), r)
    → (is_open false k ≡ false) × (is_open false v ≡ false)
unfolding read_query
read_query_closed s h =
    let (argument, begins, h1) = and_then-eq-some (strip_prefix (codes "Query(") s) _ h in
    let (a, key, h2) = and_then-eq-some (read_string argument) _ h1 in
    let (s2, comma, h3) = and_then-eq-some (next b',' (skip a.1)) _ h2 in
    let (b, value, h4) = and_then-eq-some (read_string (skip s2)) _ h3 in
    let (rest, closes, last) = and_then-eq-some (next b')' b.1) _ h4 in
    let same = (same_pair last).0 in
    (
      subst (λ (t : Text). is_open false t ≡ false) (ap (λ (p : Text × Text). p.0) same)
          (read_string_closed argument key),
      subst (λ (t : Text). is_open false t ≡ false) (ap (λ (p : Text × Text). p.1) same)
          (read_string_closed (skip s2) value),
    )

module _ (accepted : Accepted) where
  regex_writable :
      (name s : Text) {t r : Text} (regex : ComparableRegex)
      → read_call name s ≡ some (t, r)
      → new accepted t ≡ some regex
      → (is_open false regex.as_str ≡ false) × (accepted.regex regex.as_str ≡ true)
  regex_writable name s {t} regex read is =
      let (same, good) = new-eq-some accepted t is in
      (rw same (read_call_closed name s read), rw same good)

  Value-IsWritable :
      {m : BackendPoolMatcher} {s r : Text} → Value accepted m s r → IsWritable accepted m
  Value-IsWritable (host_of {t} {s} read) = read_call_closed (codes "Host(") s read
  Value-IsWritable (host_regexp_of {t} {s} {r} {regex} read is) =
      regex_writable (codes "HostRegexp(") s regex read is
  Value-IsWritable (method_of {t} {s} read is) =
      let (same, good) = method_from_str-eq-some accepted t is in
      (rw same (read_call_closed (codes "Method(") s read), rw same good)
  Value-IsWritable (path_of {t} {s} read) = read_call_closed (codes "Path(") s read
  Value-IsWritable (path_regexp_of {t} {s} {r} {regex} read is) =
      regex_writable (codes "PathRegexp(") s regex read is
  Value-IsWritable (query_of {k} {v} {s} read) = read_query_closed s read
  Value-IsWritable (one_inside _ v _) = Value-IsWritable v
  Value-IsWritable (and_inside _ v _ w _) = (Value-IsWritable v, Value-IsWritable w)
  Value-IsWritable (or_inside _ v _ w _) = (Value-IsWritable v, Value-IsWritable w)

  Rule-IsWritable : {m : BackendPoolMatcher} {s : Text} → Rule accepted m s → IsWritable accepted m
  Rule-IsWritable (one v) = Value-IsWritable v
  Rule-IsWritable (both v _ w) = (Value-IsWritable v, Value-IsWritable w)
  Rule-IsWritable (either v _ w) = (Value-IsWritable v, Value-IsWritable w)

module _ (pom : Pom) (laws : PomLaws pom) (accepted : Accepted) (m : BackendPoolMatcher) where
  -- A printed rule parses back to the same rule, if none of its strings ends in a backslash and its
  -- regular expressions and methods are accepted by their crates.
  pub from-print : IsWritable accepted m → from pom accepted (print m) ≡ done m
  from-print w = (from_iff pom laws accepted (print m) m).1 (print-Rule accepted m w)

  -- Only such rules can be written at all: whatever text parses as a rule, none of the rule's
  -- strings ends in a backslash, which would escape the closing quote, and its regular expressions
  -- and methods are accepted.
  pub from-IsWritable : (str : Text) → from pom accepted str ≡ done m → IsWritable accepted m
  from-IsWritable str h = Rule-IsWritable accepted ((from_iff pom laws accepted str m).0 h)
