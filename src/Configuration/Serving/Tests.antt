-- ===== src/Configuration/Serving/Tests.antt =====
-- A run of the theorem on the pools that src/configuration.rs makes for src/server.rs.
use another_rust_load_balanc.Prelude.{
  ℕ, ◌<◌, ◌≡◌, refl, arith, Text, codes, true, Option, none, List, [], ◌∷◌, is_some, done,
  strip_prefix, Bool, ◌==◌,
}
use another_rust_load_balanc.Prelude.Panics.{Returns}
use another_rust_load_balanc.Http.Assoc.{Entries, assoc_http, simple_uri}
use another_rust_load_balanc.Scheme.{http}
use another_rust_load_balanc.Samples.{
  one, two, client, request, matching, balancing, outside, maps, toml,
}
use another_rust_load_balanc.LoadBalancing.StickyCookie.{SameSite}
use another_rust_load_balanc.Matcher.{host}
use another_rust_load_balanc.Matcher.Pom.Standard.{standard, repeat_all}
use another_rust_load_balanc.Matcher.Grammar as Grammar
use another_rust_load_balanc.Matcher.Grammar.{Accepted, from, parser}
use another_rust_load_balanc.Middleware.{added_headers}
use another_rust_load_balanc.Middleware.Authentication.{response_unauthorized}
use another_rust_load_balanc.Middleware.RateLimiter as Rate
use another_rust_load_balanc.Middleware.Chain.{entry, empty, compression}
use another_rust_load_balanc.Health.{healthy}
use another_rust_load_balanc.LoadBalancing.Dispatch.{round_robin}
use another_rust_load_balanc.LoadBalancing.LeastConnection.Unused.{IsDistinct}
use another_rust_load_balanc.Server.{BackendPool, Client, call}
use another_rust_load_balanc.Configuration.{BackendPoolConfig, by_turns, default_health_config}
use another_rust_load_balanc.Configuration.Pools.{pools_from}
use another_rust_load_balanc.Configuration.Serving.{CanForward, pools_from-Returns}

abbrev accepted : Accepted
accepted = record { regex = λ t. true; method = λ t. true }

abbrev no_client : Option ℕ → Option ℕ → Client Entries Text
no_client timeout idle = λ r. none

abbrev config : BackendPoolConfig (List (Text × Text))
config = record {
  matcher = codes "Host('h')";
  addresses = one ∷ two ∷ [];
  schemes = http ∷ [];
  client = none;
  health_config = default_health_config;
  strategy = by_turns;
  middlewares = (codes "Compression", []) ∷ [];
}

abbrev pool : BackendPool Entries Text Rate.Entries
pool = record {
  matcher = host (codes "h");
  addresses = (one, healthy) ∷ (two, healthy) ∷ [];
  health_config = default_health_config;
  strategy = round_robin 0;
  chain = entry compression empty;
  client = λ r. none;
  schemes = http ∷ [];
}

made : pools_from toml maps standard accepted no_client (config ∷ []) ≡ done (pool ∷ [])
unfolding pools_from from Grammar.value Grammar.string Grammar.char_string Grammar.space parser
    repeat_all strip_prefix ◌==◌ default_health_config
made = refl

in_range : (n : ℕ) → 0 < n → balancing.gen_range n < n
in_range n h = h

literal : Returns (response_unauthorized assoc_http)
unfolding response_unauthorized
literal = tt

settable :
    (name value : Text) (http_only secure : Bool) (site : SameSite)
    → is_some (assoc_http.from_str (balancing.cookies.build name value http_only secure site))
      ≡ true
settable name value http_only secure site = refl

can_forward :
    CanForward toml maps standard accepted no_client assoc_http matching balancing outside in_range
      settable literal request http client
      (codes "/")
      refl
unfolding added_headers
can_forward backend uri = (refl, (refl, (refl, (refl, tt))))

distinct : IsDistinct config.addresses
distinct = ((ground arith, tt), (tt, tt))

pools_from-Returns_example : Returns (
    call assoc_http matching balancing outside []
      (record { backend_pools = pool ∷ []; acme_handler = [] })
      request
      http
      client)
pools_from-Returns_example =
    pools_from-Returns toml maps standard accepted no_client assoc_http matching balancing outside
      in_range settable literal request http client (codes "/") refl can_forward [] (config ∷ [])
      (pool ∷ []) [] made
      ((omega arith, distinct, (λ a m. (simple_uri (codes "http") a (codes "/"), refl))), tt)
