-- ===== src/Matcher/Equality.antt =====
-- The equality of rules in src/backend_pool_matcher.rs, which compares regular expressions by
-- their text.
use another_rust_load_balanc.Prelude.{◌≡◌, ◌↔◌, Bool, true, false, ◌&&◌, ◌==◌, eq_iff, arith}
use another_rust_load_balanc.Matcher.{
  ComparableRegex, BackendPoolMatcher, host, host_regexp, method, path, path_regexp, query, and, or,
}

unfoldable pub regex_eq : ComparableRegex → ComparableRegex → Bool
regex_eq self other = self.as_str == other.as_str

-- The derived `PartialEq`.
unfoldable pub matcher_eq : BackendPoolMatcher → BackendPoolMatcher → Bool
unfolding regex_eq
matcher_eq (host a) (host b) = a == b
matcher_eq (host_regexp a) (host_regexp b) = regex_eq a b
matcher_eq (method a) (method b) = a == b
matcher_eq (path a) (path b) = a == b
matcher_eq (path_regexp a) (path_regexp b) = regex_eq a b
matcher_eq (query k v) (query k' v') = k == k' && v == v'
matcher_eq (and a b) (and a' b') = matcher_eq a a' && matcher_eq b b'
matcher_eq (or a b) (or a' b') = matcher_eq a a' && matcher_eq b b'
matcher_eq _ _ = false

-- Two rules compare equal exactly when they are the same rule, regular expressions by their text.
pub matcher_eq_iff : (a b : BackendPoolMatcher) → (matcher_eq a b ≡ true) ↔ (a ≡ b)
unfolding matcher_eq
matcher_eq_iff (host a) (host b) = ground (arith, eq_iff a b)
matcher_eq_iff (host_regexp a) (host_regexp b) = ground (arith, eq_iff a.as_str b.as_str)
matcher_eq_iff (method a) (method b) = ground (arith, eq_iff a b)
matcher_eq_iff (path a) (path b) = ground (arith, eq_iff a b)
matcher_eq_iff (path_regexp a) (path_regexp b) = ground (arith, eq_iff a.as_str b.as_str)
matcher_eq_iff (query k v) (query k' v') = ground (arith, eq_iff k k', eq_iff v v')
matcher_eq_iff (and a b) (and a' b') = ground (arith, matcher_eq_iff a a', matcher_eq_iff b b')
matcher_eq_iff (or a b) (or a' b') = ground (arith, matcher_eq_iff a a', matcher_eq_iff b b')
matcher_eq_iff a b = ground arith
