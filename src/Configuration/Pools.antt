-- ===== src/Configuration/Pools.antt =====
-- The conversion of the pools of the file in src/configuration.rs.
use another_rust_load_balanc.Prelude.{ℕ, Option, none, some, List, [], ◌∷◌, map, Outcome, done}
use another_rust_load_balanc.Prelude.Panics.{◌>>=◌}
use another_rust_load_balanc.Health.{healthy}
use another_rust_load_balanc.Matcher.Pom.{Pom}
use another_rust_load_balanc.Matcher.Grammar.{Accepted, from}
use another_rust_load_balanc.Middleware.RateLimiter.{LinkedHashMap}
use another_rust_load_balanc.Server.{
  BackendPool, BackendPoolBuilder, Client, new_builder, set_pool_idle_timeout,
  set_pool_max_idle_per_host, build,
}
use another_rust_load_balanc.Configuration.{
  Toml, ClientConfig, BackendPoolConfig, chain_from, strategy_from,
}

module _ {Map : Type 0} where
  unfoldable pub with_timeout : Option ℕ → BackendPoolBuilder Map → BackendPoolBuilder Map
  unfolding set_pool_idle_timeout
  with_timeout none builder = builder
  with_timeout (some duration) builder = set_pool_idle_timeout duration builder

  unfoldable pub with_max_idle : Option ℕ → BackendPoolBuilder Map → BackendPoolBuilder Map
  unfolding set_pool_max_idle_per_host
  with_max_idle none builder = builder
  with_max_idle (some max_idle) builder = set_pool_max_idle_per_host max_idle builder

  unfoldable pub configured : Option ClientConfig → BackendPoolBuilder Map → BackendPoolBuilder Map
  unfolding with_timeout with_max_idle
  configured none builder = builder
  configured (some client) builder =
      with_max_idle client.pool_max_idle_per_host (with_timeout client.pool_idle_timeout builder)

module _ {Value Table Headers Body Map : Type 0} (toml : Toml Value Table)
    (maps : LinkedHashMap Map) (pom : Pom) (accepted : Accepted)
    (make_client : Option ℕ → Option ℕ → Client Headers Body) where
  -- `From<BackendPoolConfig>`: every backend starts as a healthy one. A text that is no rule makes
  -- the conversion panic.
  unfoldable pub pool_from : BackendPoolConfig Table → Outcome (BackendPool Headers Body Map)
  unfolding chain_from strategy_from configured new_builder build
  pool_from other = do
    matcher ← from pom accepted other.matcher
    done (
        build make_client (
          configured other.client (
            new_builder matcher (map (λ address. (address, healthy)) other.addresses)
              other.health_config (strategy_from other.strategy)
              (chain_from toml maps other.middlewares) other.schemes)))

  unfoldable pub pools_from :
      List (BackendPoolConfig Table) → Outcome (List (BackendPool Headers Body Map))
  unfolding pool_from
  pools_from [] = done []
  pools_from (other ∷ others) = do
    pool ← pool_from other
    pools ← pools_from others
    done (pool ∷ pools)
