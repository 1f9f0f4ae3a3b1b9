-- ===== src/Configuration.antt =====
-- src/configuration.rs: the middlewares and strategies of the deserialized file. The toml and serde
-- crates are parameters. The modules below go on to pools, to the runtime configuration and to the
-- watcher.
pub mod Describing
pub mod Chains
pub mod Pools
pub mod Loads
pub mod Runtime
pub mod Certificates
pub mod Reading
pub mod Watching
pub mod Keeping
pub mod Origins
pub mod Reloading
pub mod InvalidRules
pub mod Made
pub mod Warnings
pub mod Checked
pub mod Serving
mod Tests
use another_rust_load_balanc.Prelude.{
  ℕ, ◌+◌, ◌-◌, ◌*◌, ◌%◌, ◌^◌, Text, codes, Bool, true, false, not, ◌&&◌, ◌||◌, Option, none, some,
  List, [], ◌∷◌, map, filter_map, rev, ◌==◌, Result, ok, err, leb, if◌then◌else◌,
}
use another_rust_load_balanc.Prelude.Int.{ℤ, pos, negsuc}
use another_rust_load_balanc.Prelude.Results.{◌>>=◌, ok_or}
use another_rust_load_balanc.Prelude.Options.{and_then}
use another_rust_load_balanc.Health.{HealthConfig, Healthiness, healthy}
use another_rust_load_balanc.Scheme.{Scheme}
use another_rust_load_balanc.Matcher.{BackendPoolMatcher}
use another_rust_load_balanc.LoadBalancing.RoundRobin as RoundRobin
use another_rust_load_balanc.LoadBalancing.LeastConnection as LeastConnection
use another_rust_load_balanc.LoadBalancing.StickyCookie.{SameSite, strict, lax, unset, StickyCookie}
use another_rust_load_balanc.LoadBalancing.Dispatch.{
  Strategy, random, ip_hash, round_robin, least_connection, sticky_cookie,
}
use another_rust_load_balanc.Middleware.Authentication.{Authentication}
use another_rust_load_balanc.Middleware.CustomErrorPages.{CustomErrorPages}
use another_rust_load_balanc.Middleware.MaxBodySize.{MaxBodySize}
use another_rust_load_balanc.Middleware.RateLimiter as Rate
use another_rust_load_balanc.Middleware.RateLimiter.{LinkedHashMap}
use another_rust_load_balanc.Middleware.Chain.{
  Middleware, authentication, compression, custom_error_pages, https_redirector, max_body_size,
  rate_limiter, MiddlewareChain, empty, entry,
}
use another_rust_load_balanc.Server.{
  BackendPool, BackendPoolBuilder, Client, new_builder, set_pool_idle_timeout,
  set_pool_max_idle_per_host, build,
}

-- The accessors of `toml::Value` and of its tables that the program calls.
pub record Toml (Value Table : Type 0) : Type 0 where
  pub as_table : Value → Option Table
  pub as_integer : Value → Option ℤ
  pub as_str : Value → Option Text
  pub as_bool : Value → Option Bool
  pub as_array : Value → Option (List Value)
  pub get : Text → Table → Option Value
  pub entries : Table → List (Text × Value)

-- `try_into` from `i64` to `u64`: a negative number is none. Every other `i64` fits.
abbrev pub to_u64 : ℤ → Option ℕ
to_u64 (pos n) = some n
to_u64 (negsuc n) = none

-- `as u16`: the number modulo 2^16, of which -(n + 1) leaves 2^16 - 1 - n % 2^16.
abbrev pub as_u16 : ℤ → ℕ
as_u16 (pos n) = n % 2 ^ 16
as_u16 (negsuc n) = 2 ^ 16 - 1 - n % 2 ^ 16

module _ {Value Table : Type 0} (toml : Toml Value Table) where
  -- `t.get(key).and_then(Value::as_…).ok_or(())`, the empty error being a text here.
  unfoldable pub field : {A : Type 0} → Text → (Value → Option A) → Table → Result A Text
  field key accessor t = ok_or (and_then (toml.get key t) accessor) []

  unfoldable pub custom_error_pages_from : Table → Result CustomErrorPages Text
  unfolding field
  custom_error_pages_from t = do
    location ← field (codes "location") toml.as_str t
    errors ← field (codes "errors") toml.as_array t
    ok (record { location = location; errors = map as_u16 (filter_map toml.as_integer errors) })

  unfoldable pub rate_limiter_from :
      {Map : Type 0} → LinkedHashMap Map → Table → Result (Middleware Map) Text
  unfolding field Rate.new
  rate_limiter_from maps t = do
    limit ← field (codes "limit") (λ v. and_then (toml.as_integer v) to_u64) t
    window_sec ← field (codes "window_sec") (λ v. and_then (toml.as_integer v) to_u64) t
    ok (rate_limiter (Rate.new maps limit window_sec))

  unfoldable pub authentication_from : {Map : Type 0} → Table → Result (Middleware Map) Text
  unfolding field
  authentication_from t = do
    ldap_address ← field (codes "ldap_address") toml.as_str t
    user_directory ← field (codes "user_directory") toml.as_str t
    rdn_identifier ← field (codes "rdn_identifier") toml.as_str t
    recursive ← field (codes "recursive") toml.as_bool t
    ok (
        authentication (record {
          ldap_address = ldap_address;
          user_directory = user_directory;
          rdn_identifier = rdn_identifier;
          recursive = recursive;
        }))

  unfoldable pub max_body_size_from : {Map : Type 0} → Table → Result (Middleware Map) Text
  unfolding field
  max_body_size_from t = do
    limit ← field (codes "limit") toml.as_integer t
    ok (max_body_size (record { limit = limit }))

  -- The cases of `try_from` in which the payload is a table.
  unfoldable pub middleware_of_table :
      {Map : Type 0} → LinkedHashMap Map → Text → Table → Result (Middleware Map) Text
  unfolding rate_limiter_from authentication_from max_body_size_from custom_error_pages_from
  middleware_of_table maps name t =
      if name == codes "RateLimiter"
      then rate_limiter_from maps t
      else (if name == codes "Authentication"
          then authentication_from t
          else (if name == codes "MaxBodySize"
              then max_body_size_from t
              else (if name == codes "CustomErrorPages"
                  then (custom_error_pages_from t >>= λ pages. ok (custom_error_pages pages))
                  else err [])))

  -- `TryFrom<(String, Value)>`.
  unfoldable pub middleware_from :
      {Map : Type 0} → LinkedHashMap Map → Text × Value → Result (Middleware Map) Text
  unfolding middleware_of_table
  middleware_from maps (name, payload) =
      if name == codes "Compression"
      then ok compression
      else (if name == codes "HttpsRedirector"
          then ok https_redirector
          else elim (toml.as_table payload) [
            | none ↦ err []
            | some t ↦ middleware_of_table maps name t
          ])

  -- The loop over the reversed entries: each middleware is put before the chain so far, and an
  -- entry that is no middleware is skipped.
  unfoldable pub chain_of_entries :
      {Map : Type 0}
      → LinkedHashMap Map
      → List (Text × Value)
      → MiddlewareChain Map
      → MiddlewareChain Map
  unfolding middleware_from
  chain_of_entries maps [] chain = chain
  chain_of_entries maps (e ∷ entries) chain = elim (middleware_from maps e) [
    | ok middleware ↦ chain_of_entries maps entries (entry middleware chain)
    | err _ ↦ chain_of_entries maps entries chain
  ]

  unfoldable pub chain_from : {Map : Type 0} → LinkedHashMap Map → Table → MiddlewareChain Map
  unfolding chain_of_entries rev
  chain_from maps other = chain_of_entries maps (rev (toml.entries other)) empty

pub data StickyCookieSameSite : Type 0 where
  strict_site lax_site no_site : StickyCookieSameSite

unfoldable pub same_site_from : StickyCookieSameSite → SameSite
same_site_from strict_site = strict
same_site_from lax_site = lax
same_site_from no_site = unset

pub data LoadBalancingStrategyConfig : Type 0 where
  sticky :
      (cookie_name : Text) (http_only secure : Bool) (same_site : StickyCookieSameSite)
      (inner : LoadBalancingStrategyConfig)
      → LoadBalancingStrategyConfig
  by_random by_ip by_connections by_turns : LoadBalancingStrategyConfig

unfoldable pub strategy_from : LoadBalancingStrategyConfig → Strategy
unfolding same_site_from
strategy_from (sticky cookie_name http_only secure same_site inner) =
    sticky_cookie
      (record {
        cookie_name = cookie_name;
        http_only = http_only;
        secure = secure;
        same_site = same_site_from same_site;
      })
      (strategy_from inner)
strategy_from by_random = random
strategy_from by_ip = ip_hash
strategy_from by_turns = round_robin RoundRobin.new
strategy_from by_connections = least_connection LeastConnection.new

pub record ClientConfig : Type 0 where
  pub pool_idle_timeout : Option ℕ
  pub pool_max_idle_per_host : Option ℕ

-- `HealthTomlConfig` has the fields of `HealthConfig`, and these defaults.
unfoldable pub default_health_config : HealthConfig
default_health_config = record { slow_threshold = pos 300; timeout = 500; path = codes "/" }

pub record BackendPoolConfig (Table : Type 0) : Type 0 where
  pub matcher : Text
  pub addresses : List Text
  pub schemes : List Scheme
  pub client : Option ClientConfig
  pub health_config : HealthConfig
  pub strategy : LoadBalancingStrategyConfig
  pub middlewares : Table
