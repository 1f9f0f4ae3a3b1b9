-- ===== src/Matcher/Tests.antt =====
-- Runs of the theorems on src/backend_pool_matcher.rs.
use another_rust_load_balanc.Prelude.{◌≡◌, ◌↔◌, refl, Text, codes, true, done, strip_prefix}
use another_rust_load_balanc.Http.Assoc.{assoc_http}
use another_rust_load_balanc.Samples.{request, matching}
use another_rust_load_balanc.Matcher.{BackendPoolMatcher, host, path, query, and, or, matches}
use another_rust_load_balanc.Matcher.Pom.Standard.{standard, standard_laws, repeat_all}
use another_rust_load_balanc.Matcher.Grammar as Grammar
use another_rust_load_balanc.Matcher.Grammar.{Accepted, from, parser}
use another_rust_load_balanc.Matcher.Grammar.Spelling.{Rule}
use another_rust_load_balanc.Matcher.Grammar.Rules.{from_iff}
use another_rust_load_balanc.Matcher.Grammar.Printing.{print}
use another_rust_load_balanc.Matcher.Grammar.Writable.{from-print}
use another_rust_load_balanc.Matcher.Satisfies.{Satisfies, matches_iff}

abbrev rule : BackendPoolMatcher
rule = or (host (codes "h")) (path (codes "/admin"))

matches_iff_example :
    (matches assoc_http matching rule request ≡ true) ↔ Satisfies assoc_http matching request rule
matches_iff_example = matches_iff assoc_http matching rule request

abbrev accepted : Accepted
accepted = record { regex = λ t. true; method = λ t. true }

-- A rule with a quote inside of a string, and one of the other kind on the right.
abbrev written : BackendPoolMatcher
written = or (host (codes "a'b")) (and (path (codes "/x")) (query (codes "k") (codes "v")))

-- As the documentation writes a rule, with spaces.
abbrev spaced : Text
spaced = codes "  Host('h')  ||  ( Path('/admin') )"

spaced_read : from standard accepted spaced ≡ done (or (host (codes "h")) (path (codes "/admin")))
unfolding from Grammar.value Grammar.string Grammar.char_string Grammar.space parser repeat_all
    strip_prefix
spaced_read = refl

from_iff_example : (from standard accepted spaced ≡ done rule) ↔ Rule accepted rule spaced
from_iff_example = from_iff standard standard_laws accepted spaced rule

from-print_example : from standard accepted (print written) ≡ done written
from-print_example = from-print standard standard_laws accepted written (refl, (refl, (refl, refl)))
