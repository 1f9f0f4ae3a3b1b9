-- ===== src/Matcher.antt =====
-- src/backend_pool_matcher.rs: the rules that select a backend pool, and when a request meets one.
-- The regex and url crates are parameters.
pub mod Satisfies
pub mod Equality
pub mod Pom
pub mod Grammar
mod Tests
use another_rust_load_balanc.Prelude.{
  Text, Bool, true, false, ◌&&◌, ◌||◌, Option, none, some, List, [], ◌==◌,
}
use another_rust_load_balanc.Prelude.Maps
use another_rust_load_balanc.Prelude.Options.{◌>>=◌}
use another_rust_load_balanc.Http.{HeaderName, Http, Request}

-- A compiled regular expression, by the text that `as_str` gives back.
pub record ComparableRegex : Type 0 where
  pub as_str : Text

pub data BackendPoolMatcher : Type 0 where
  host : Text → BackendPoolMatcher
  host_regexp : ComparableRegex → BackendPoolMatcher
  method : Text → BackendPoolMatcher
  path : Text → BackendPoolMatcher
  path_regexp : ComparableRegex → BackendPoolMatcher
  query : Text → Text → BackendPoolMatcher
  and or : BackendPoolMatcher → BackendPoolMatcher → BackendPoolMatcher

-- `Regex::is_match` of a pattern on a text, and the pairs of `form_urlencoded::parse`.
pub record Matching : Type 0 where
  pub is_match : ComparableRegex → Text → Bool
  pub query_pairs : Text → List (Text × Text)

abbrev pub host_header : HeaderName
host_header = "host"

abbrev pub unwrap_or : Option Bool → Bool
unwrap_or none = false
unwrap_or (some b) = b

-- The last value of each key, by collecting the pairs into a map.
unfoldable pub query_params : Matching → Option Text → Maps.HashMap Text
query_params matching none = []
query_params matching (some text) = Maps.collect [] (matching.query_pairs text)

module _ {Headers Value Body : Type 0} (http : Http Headers Value Body) (matching : Matching) where
  unfoldable pub matches : BackendPoolMatcher → Request Headers Body → Bool
  unfolding query_params
  matches (host name) request =
      unwrap_or do h ← http.get host_header request.headers; some (http.eq_str h name)
  matches (host_regexp regex) request = unwrap_or do
    h ← http.get host_header request.headers
    text ← http.to_str h
    some (matching.is_match regex text)
  matches (method name) request = request.method == name
  matches (path text) request = request.uri.path == text
  matches (path_regexp regex) request = matching.is_match regex request.uri.path
  matches (query key value) request =
      unwrap_or
        do sent ← Maps.get key (query_params matching request.uri.query); some (sent == value)
  matches (and left right) request = matches left request && matches right request
  matches (or left right) request = matches left request || matches right request
