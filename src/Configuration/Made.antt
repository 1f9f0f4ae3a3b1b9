-- ===== src/Configuration/Made.antt =====
-- What the pools of src/configuration.rs have from the file.
use another_rust_load_balanc.Prelude.{
  ℕ, ◌≡◌, refl, sym, ap, ◌∙◌, Text, Option, none, some, List, [], ◌∷◌, map, filter, is_empty, done,
  if◌then◌else◌,
}
use another_rust_load_balanc.Prelude.Panics.{>>=-eq-done, done-injective}
use another_rust_load_balanc.Health.{Healthiness, healthy, healthiness_eq}
use another_rust_load_balanc.Matcher.Pom.{Pom}
use another_rust_load_balanc.Matcher.Grammar.{Accepted, from}
use another_rust_load_balanc.Middleware.RateLimiter.{LinkedHashMap}
use another_rust_load_balanc.Server.{
  BackendPool, BackendPoolBuilder, Client, new_builder, build, set_pool_idle_timeout,
  set_pool_max_idle_per_host, working_addresses, is_healthy, is_slow,
}
use another_rust_load_balanc.Configuration.{
  Toml, ClientConfig, BackendPoolConfig, chain_from, strategy_from,
}
use another_rust_load_balanc.Configuration.Pools.{
  with_timeout, with_max_idle, configured, pool_from,
}

-- A backend of the file, which starts as a healthy one.
abbrev pub as_healthy : Text → Text × Healthiness
as_healthy address = (address, healthy)

filter-healthy :
    (addresses : List Text)
    → map (λ a. a.0) (filter (λ a. is_healthy a.1) (map as_healthy addresses)) ≡ addresses
unfolding healthiness_eq
filter-healthy [] = refl
filter-healthy (a ∷ addresses) = ap (λ l. a ∷ l) (filter-healthy addresses)

filter-slow :
    (addresses : List Text)
    → map (λ a. a.0) (filter (λ a. is_slow a.1) (map as_healthy addresses)) ≡ []
filter-slow [] = refl
filter-slow (a ∷ addresses) = filter-slow addresses

some_or_none : (addresses : List Text) → (if is_empty addresses then [] else addresses) ≡ addresses
some_or_none [] = refl
some_or_none (a ∷ addresses) = refl

-- All backends of a pool work at first.
pub healthy-working :
    {Headers Body Map : Type 0} (pool : BackendPool Headers Body Map) (addresses : List Text)
    → pool.addresses ≡ map as_healthy addresses
    → working_addresses pool ≡ addresses
unfolding working_addresses
healthy-working pool addresses is =
    rw (is, filter-healthy addresses, filter-slow addresses) (some_or_none addresses)

-- The settings of the client leave the rest of the builder as it is.
abbrev IsRest : {Map : Type 0} → BackendPoolBuilder Map → BackendPoolBuilder Map → Type 0
IsRest after builder =
    (after.addresses ≡ builder.addresses)
    × (after.strategy ≡ builder.strategy)
    × (after.schemes ≡ builder.schemes)

with_timeout-IsRest :
    {Map : Type 0} (timeout : Option ℕ) (builder : BackendPoolBuilder Map)
    → IsRest (with_timeout timeout builder) builder
unfolding with_timeout set_pool_idle_timeout
with_timeout-IsRest none builder = (refl, refl, refl)
with_timeout-IsRest (some duration) builder = (refl, refl, refl)

with_max_idle-IsRest :
    {Map : Type 0} (max_idle : Option ℕ) (builder : BackendPoolBuilder Map)
    → IsRest (with_max_idle max_idle builder) builder
unfolding with_max_idle set_pool_max_idle_per_host
with_max_idle-IsRest none builder = (refl, refl, refl)
with_max_idle-IsRest (some max_idle) builder = (refl, refl, refl)

configured-IsRest :
    {Map : Type 0} (client : Option ClientConfig) (builder : BackendPoolBuilder Map)
    → IsRest (configured client builder) builder
unfolding configured
configured-IsRest none builder = (refl, refl, refl)
configured-IsRest (some client) builder =
    let timed = with_timeout client.pool_idle_timeout builder in
    let rest = with_timeout-IsRest client.pool_idle_timeout builder in
    let more = with_max_idle-IsRest client.pool_max_idle_per_host timed in
    (more.0 ∙ rest.0, more.1 ∙ rest.1, more.2 ∙ rest.2)

module _ {Value Table Headers Body Map : Type 0} (toml : Toml Value Table)
    (maps : LinkedHashMap Map) (pom : Pom) (accepted : Accepted)
    (make_client : Option ℕ → Option ℕ → Client Headers Body) where
  -- What the pool of a configuration has from it.
  pub pool_from-fields :
      (config : BackendPoolConfig Table) {pool : BackendPool Headers Body Map}
      → pool_from toml maps pom accepted make_client config ≡ done pool
      → (pool.addresses ≡ map as_healthy config.addresses)
        × (pool.strategy ≡ strategy_from config.strategy)
        × (pool.schemes ≡ config.schemes)
  unfolding pool_from new_builder build
  pool_from-fields config {pool} h =
      let (m, first, last) = >>=-eq-done (from pom accepted config.matcher) _ h in
      let builder =
        new_builder m (map as_healthy config.addresses) config.health_config
          (strategy_from config.strategy) (chain_from toml maps config.middlewares)
          config.schemes in
      let rest = configured-IsRest config.client builder in
      let made = sym (done-injective last) in
      (
        ap (λ (p : BackendPool Headers Body Map). p.addresses) made ∙ rest.0,
        ap (λ (p : BackendPool Headers Body Map). p.strategy) made ∙ rest.1,
        ap (λ (p : BackendPool Headers Body Map). p.schemes) made ∙ rest.2,
      )
