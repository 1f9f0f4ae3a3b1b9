-- ===== src/Configuration/Warnings/Tests.antt =====
-- A run of the theorem on the warnings of src/configuration.rs: a pool with neither schemes nor
-- addresses.
use another_rust_load_balanc.Prelude.{
  ℕ, ◌≡◌, refl, Text, codes, true, Option, none, List, [], ◌∷◌, All, done, strip_prefix, ◌==◌,
}
use another_rust_load_balanc.Http.Assoc.{Entries, assoc_http}
use another_rust_load_balanc.Samples.{matching, balancing, outside, maps, toml}
use another_rust_load_balanc.LoadBalancing.Dispatch.{random}
use another_rust_load_balanc.Matcher.{host}
use another_rust_load_balanc.Matcher.Pom.Standard.{standard, repeat_all}
use another_rust_load_balanc.Matcher.Grammar as Grammar
use another_rust_load_balanc.Matcher.Grammar.{Accepted, from, parser}
use another_rust_load_balanc.Middleware.RateLimiter as Rate
use another_rust_load_balanc.Middleware.Chain.{empty}
use another_rust_load_balanc.Server.{BackendPool, Client}
use another_rust_load_balanc.Configuration.{BackendPoolConfig, by_random, default_health_config}
use another_rust_load_balanc.Configuration.Pools.{pools_from}
use another_rust_load_balanc.Configuration.Runtime.{TomlConfig}
use another_rust_load_balanc.Configuration.Warnings.{
  unreachable, always_bad_gateway, IsTrue, print_warnings, print_warnings-IsTrue,
}

abbrev accepted : Accepted
accepted = record { regex = λ t. true; method = λ t. true }

abbrev no_client : Option ℕ → Option ℕ → Client Entries Text
no_client timeout idle = λ r. none

abbrev bare : BackendPoolConfig (List (Text × Text))
bare = record {
  matcher = codes "Host('h')";
  addresses = [];
  schemes = [];
  client = none;
  health_config = default_health_config;
  strategy = by_random;
  middlewares = [];
}

abbrev file : TomlConfig (List (Text × Text))
file = record {
  http_address = codes "h";
  https_address = codes "s";
  backend_pools = bare ∷ [];
  certificates = [];
  health_interval = 10;
}

abbrev pool : BackendPool Entries Text Rate.Entries
pool = record {
  matcher = host (codes "h");
  addresses = [];
  health_config = default_health_config;
  strategy = random;
  chain = empty;
  client = λ r. none;
  schemes = [];
}

made : pools_from toml maps standard accepted no_client (bare ∷ []) ≡ done (pool ∷ [])
unfolding pools_from from Grammar.value Grammar.string Grammar.char_string Grammar.space parser
    repeat_all strip_prefix ◌==◌ default_health_config
made = refl

print_warnings-IsTrue_example :
    All
      (IsTrue toml maps standard accepted no_client assoc_http matching balancing outside
        (pool ∷ []))
      (unreachable 0 ∷ always_bad_gateway 0 ∷ [])
unfolding print_warnings
print_warnings-IsTrue_example =
    print_warnings-IsTrue toml maps standard accepted no_client assoc_http matching balancing
      outside file (pool ∷ []) made
