-- ===== src/Matcher/Grammar/Lengths.antt =====
-- How much of a text the parsers in src/backend_pool_matcher.rs leave.
use another_rust_load_balanc.Prelude.{
  ◌≤◌, ◌≡◌, ap, Text, false, codes, some, [], ◌∷◌, length, arith, strip_prefix,
}
use another_rust_load_balanc.Prelude.Options.{and_then-eq-some}
use another_rust_load_balanc.Matcher.{BackendPoolMatcher}
use another_rust_load_balanc.Matcher.Grammar.{Accepted, value, quote}
use another_rust_load_balanc.Matcher.Grammar.Reading.{
  skip, next, read_string, read_call, length-skip, length-next, length-chars, chars,
}
use another_rust_load_balanc.Matcher.Grammar.Spelling.{
  Value, host_of, host_regexp_of, method_of, path_of, path_regexp_of, query_of, one_inside,
  and_inside, or_inside, read_query,
}
use another_rust_load_balanc.Matcher.Grammar.Expressions.{same_pair}

pub length-strip_prefix : (p s : Text) {r : Text} → strip_prefix p s ≡ some r → length r ≤ length s
unfolding strip_prefix
length-strip_prefix [] s h = ground arith
length-strip_prefix (c ∷ p) [] h = cc
length-strip_prefix (c ∷ p) (d ∷ s) {r} h = ground (arith, length-strip_prefix p s {r = r})

length-read_string : (s : Text) {t r : Text} → read_string s ≡ some (t, r) → length r ≤ length s
unfolding read_string
length-read_string s h =
    let (inside, opens, h1) = and_then-eq-some (next quote s) _ h in
    let (rest, closes, last) = and_then-eq-some (next quote (chars false inside).1) _ h1 in
    omega (
      arith,
      length-next quote s opens,
      length-next quote (chars false inside).1 closes,
      length-chars false inside,
      ap length (same_pair last).1,
    )

length-read_call :
    (name s : Text) {t r : Text} → read_call name s ≡ some (t, r) → length r ≤ length s
unfolding read_call
length-read_call name s h =
    let (argument, begins, h1) = and_then-eq-some (strip_prefix name s) _ h in
    let (a, read, h2) = and_then-eq-some (read_string argument) _ h1 in
    let (rest, closes, last) = and_then-eq-some (next b')' a.1) _ h2 in
    omega (
      arith,
      length-strip_prefix name s begins,
      length-read_string argument read,
      length-next b')' a.1 closes,
      ap length (same_pair last).1,
    )

length-read_query :
    (s : Text) {k v r : Text} → read_query s ≡ some ((k, v), r) → length r ≤ length s
unfolding read_query
length-read_query s h =
    let (argument, begins, h1) = and_then-eq-some (strip_prefix (codes "Query(") s) _ h in
    let (a, key, h2) = and_then-eq-some (read_string argument) _ h1 in
    let (s2, comma, h3) = and_then-eq-some (next b',' (skip a.1)) _ h2 in
    let (b, value, h4) = and_then-eq-some (read_string (skip s2)) _ h3 in
    let (rest, closes, last) = and_then-eq-some (next b')' b.1) _ h4 in
    omega (
      arith,
      length-strip_prefix (codes "Query(") s begins,
      length-read_string argument key,
      length-skip a.1,
      length-next b',' (skip a.1) comma,
      length-skip s2,
      length-read_string (skip s2) value,
      length-next b')' b.1 closes,
      ap length (same_pair last).1,
    )

module _ (accepted : Accepted) where
  pub length-Value :
      {m : BackendPoolMatcher} {s r : Text} → Value accepted m s r → length r ≤ length s
  length-Value (host_of {t} {s} read) = length-read_call (codes "Host(") s read
  length-Value (host_regexp_of {t} {s} read is) = length-read_call (codes "HostRegexp(") s read
  length-Value (method_of {t} {s} read is) = length-read_call (codes "Method(") s read
  length-Value (path_of {t} {s} read) = length-read_call (codes "Path(") s read
  length-Value (path_regexp_of {t} {s} read is) = length-read_call (codes "PathRegexp(") s read
  length-Value (query_of {k} {v} {s} read) = length-read_query s read
  length-Value (one_inside {m} {s} {s1} {s2} opens inside closes) = omega (
    arith,
    length-next b'(' s opens,
    length-skip s1,
    length-Value inside,
    length-skip s2,
    length-next b')' (skip s2) closes,
  )
  length-Value (and_inside {left} {right} {s} {s1} {s2} {s3} {s4} opens first op second closes) =
      omega (
        arith,
        length-next b'(' s opens,
        length-skip s1,
        length-Value first,
        length-skip s2,
        length-strip_prefix (codes "&&") (skip s2) op,
        length-skip s3,
        length-Value second,
        length-skip s4,
        length-next b')' (skip s4) closes,
      )
  length-Value (or_inside {left} {right} {s} {s1} {s2} {s3} {s4} opens first op second closes) =
      omega (
        arith,
        length-next b'(' s opens,
        length-skip s1,
        length-Value first,
        length-skip s2,
        length-strip_prefix (codes "||") (skip s2) op,
        length-skip s3,
        length-Value second,
        length-skip s4,
        length-next b')' (skip s4) closes,
      )
