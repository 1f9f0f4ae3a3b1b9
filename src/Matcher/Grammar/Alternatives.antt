-- ===== src/Matcher/Grammar/Alternatives.antt =====
-- Which alternative of the parser `value` in src/backend_pool_matcher.rs reads a text.
use another_rust_load_balanc.Prelude.{
  ℕ, ◌≡◌, refl, Text, codes, none, some, [], ◌∷◌, ◌++◌, arith, strip_prefix, strip_prefix-eq-some,
}
use another_rust_load_balanc.Prelude.Options.{and_then-eq-some}
use another_rust_load_balanc.Matcher.{
  ComparableRegex, host, host_regexp, method, path, path_regexp, query,
}
use another_rust_load_balanc.Matcher.Grammar.{Accepted, new, method_from_str}
use another_rust_load_balanc.Matcher.Grammar.Reading.{next, read_call}
use another_rust_load_balanc.Matcher.Grammar.Spelling.{read_query, read_test}

pub next-eq-some : (c : ℕ) (s : Text) {r : Text} → next c s ≡ some r → s ≡ c ∷ r
unfolding next
next-eq-some c [] h = cc
next-eq-some c (d ∷ s) h = ground arith

-- A text that begins with one name is not read as a call of another.
call_fails : (name s : Text) → strip_prefix name s ≡ none → read_call name s ≡ none
unfolding read_call
call_fails name s h = rw h refl

query_fails : (s : Text) → strip_prefix (codes "Query(") s ≡ none → read_query s ≡ none
unfolding read_query
query_fails s h = rw h refl

call_begins :
    (name s : Text) {a : Text × Text}
    → read_call name s ≡ some a
    → (argument : Text) × (s ≡ name ++ argument)
unfolding read_call
call_begins name s h =
    let (argument, stripped, _) = and_then-eq-some (strip_prefix name s) _ h in
    (argument, strip_prefix-eq-some name s stripped)

query_begins :
    (s : Text) {a : (Text × Text) × Text}
    → read_query s ≡ some a
    → (argument : Text) × (s ≡ codes "Query(" ++ argument)
unfolding read_query
query_begins s h =
    let (argument, stripped, _) = and_then-eq-some (strip_prefix (codes "Query(") s) _ h in
    (argument, strip_prefix-eq-some (codes "Query(") s stripped)

module _ (accepted : Accepted) where
  module _ (s : Text) where
    pub reads_host :
        {t r : Text}
        → read_call (codes "Host(") s ≡ some (t, r)
        → read_test accepted s ≡ some (host t, r)
    unfolding read_test
    reads_host h = rw h refl

    pub reads_host_regexp :
        {t r : Text} {regex : ComparableRegex}
        → read_call (codes "HostRegexp(") s ≡ some (t, r)
        → new accepted t ≡ some regex
        → read_test accepted s ≡ some (host_regexp regex, r)
    unfolding read_test strip_prefix
    reads_host_regexp h is =
        let (argument, begins) = call_begins (codes "HostRegexp(") s h in
        rw (call_fails (codes "Host(") s (rw begins refl), h, is) refl

    pub reads_method :
        {t r : Text} {m : Text}
        → read_call (codes "Method(") s ≡ some (t, r)
        → method_from_str accepted t ≡ some m
        → read_test accepted s ≡ some (method m, r)
    unfolding read_test strip_prefix
    reads_method h is =
        let (argument, begins) = call_begins (codes "Method(") s h in
        rw
          (
            call_fails (codes "Host(") s (rw begins refl),
            call_fails (codes "HostRegexp(") s (rw begins refl),
            h,
            is,
          )
          refl

    pub reads_path :
        {t r : Text}
        → read_call (codes "Path(") s ≡ some (t, r)
        → read_test accepted s ≡ some (path t, r)
    unfolding read_test strip_prefix
    reads_path h =
        let (argument, begins) = call_begins (codes "Path(") s h in
        rw
          (
            call_fails (codes "Host(") s (rw begins refl),
            call_fails (codes "HostRegexp(") s (rw begins refl),
            call_fails (codes "Method(") s (rw begins refl),
            h,
          )
          refl

    pub reads_path_regexp :
        {t r : Text} {regex : ComparableRegex}
        → read_call (codes "PathRegexp(") s ≡ some (t, r)
        → new accepted t ≡ some regex
        → read_test accepted s ≡ some (path_regexp regex, r)
    unfolding read_test strip_prefix
    reads_path_regexp h is =
        let (argument, begins) = call_begins (codes "PathRegexp(") s h in
        rw
          (
            call_fails (codes "Host(") s (rw begins refl),
            call_fails (codes "HostRegexp(") s (rw begins refl),
            call_fails (codes "Method(") s (rw begins refl),
            call_fails (codes "Path(") s (rw begins refl),
            h,
            is,
          )
          refl

    pub reads_query :
        {k v r : Text}
        → read_query s ≡ some ((k, v), r)
        → read_test accepted s ≡ some (query k v, r)
    unfolding read_test strip_prefix
    reads_query h =
        let begins = query_begins s h in
        rw
          (
            call_fails (codes "Host(") s (rw begins.1 refl),
            call_fails (codes "HostRegexp(") s (rw begins.1 refl),
            call_fails (codes "Method(") s (rw begins.1 refl),
            call_fails (codes "Path(") s (rw begins.1 refl),
            call_fails (codes "PathRegexp(") s (rw begins.1 refl),
            h,
          )
          refl

    pub no_test : {s1 : Text} → next b'(' s ≡ some s1 → read_test accepted s ≡ none
    unfolding read_test read_call read_query strip_prefix
    no_test h = rw (next-eq-some b'(' s h) refl
