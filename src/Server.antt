-- ===== src/Server.antt =====
-- src/server.rs: the backend pools and how a request is served. A lock or an atomic value is its
-- content, and a call returns the pools as they are afterwards.
pub mod Pools
pub mod Answers
pub mod Responding
pub mod Listening
mod Tests
use another_rust_load_balanc.Prelude.{
  ℕ, Text, Bool, true, false, ◌&&◌, Option, none, some, List, [], ◌∷◌, map, filter, find, any,
  is_empty, Outcome, done, panic, if◌then◌else◌,
}
use another_rust_load_balanc.Prelude.Panics.{◌>>=◌}
use another_rust_load_balanc.Http.{Http, Request, Response, SocketAddr}
use another_rust_load_balanc.ErrorResponse.{bad_gateway, not_found}
use another_rust_load_balanc.Scheme.{Scheme, scheme_eq}
use another_rust_load_balanc.Health.{
  HealthConfig, Healthiness, healthiness_eq, healthy, slow, unresponsive,
}
use another_rust_load_balanc.Matcher.{BackendPoolMatcher, Matching, matches}
use another_rust_load_balanc.Matcher.Equality.{matcher_eq}
use another_rust_load_balanc.Acme.{AcmeHandler, respond_to_challenge}
use another_rust_load_balanc.LoadBalancing as Balance
use another_rust_load_balanc.LoadBalancing.{RequestForwarder, backend_uri, modify_response}
use another_rust_load_balanc.LoadBalancing.Dispatch as Dispatch
use another_rust_load_balanc.LoadBalancing.Dispatch.{
  Strategy, select_backend, Notification, notified,
}
use another_rust_load_balanc.Middleware as Ware
use another_rust_load_balanc.Middleware.Chain as Chain
use another_rust_load_balanc.Middleware.Chain.{MiddlewareChain, forward_request}

-- The client of a pool: the response of a backend, or an error.
abbrev pub Client : Type 0 → Type 0 → Type 0
Client Headers Body = Request Headers Body → Option (Response Headers Body)

pub record BackendPool (Headers Body Map : Type 0) : Type 0 where
  pub matcher : BackendPoolMatcher
  pub addresses : List (Text × Healthiness)
  pub health_config : HealthConfig
  pub strategy : Strategy
  pub chain : MiddlewareChain Map
  pub client : Client Headers Body
  pub schemes : List Scheme

pub record SharedData (Headers Body Map : Type 0) : Type 0 where
  pub backend_pools : List (BackendPool Headers Body Map)
  pub acme_handler : AcmeHandler

-- The builder, with the two settings of its client.
pub record BackendPoolBuilder (Map : Type 0) : Type 0 where
  pub matcher : BackendPoolMatcher
  pub addresses : List (Text × Healthiness)
  pub health_config : HealthConfig
  pub strategy : Strategy
  pub chain : MiddlewareChain Map
  pub schemes : List Scheme
  pub pool_idle_timeout : Option ℕ
  pub pool_max_idle_per_host : Option ℕ

module _ {Map : Type 0} where
  unfoldable pub new_builder :
      BackendPoolMatcher
      → List (Text × Healthiness)
      → HealthConfig
      → Strategy
      → MiddlewareChain Map
      → List Scheme
      → BackendPoolBuilder Map
  new_builder matcher addresses health_config strategy chain schemes = record {
    matcher = matcher;
    addresses = addresses;
    health_config = health_config;
    strategy = strategy;
    chain = chain;
    schemes = schemes;
    pool_idle_timeout = none;
    pool_max_idle_per_host = none;
  }

  unfoldable pub set_pool_idle_timeout : ℕ → BackendPoolBuilder Map → BackendPoolBuilder Map
  set_pool_idle_timeout duration self = record self { pool_idle_timeout = some duration }

  unfoldable pub set_pool_max_idle_per_host : ℕ → BackendPoolBuilder Map → BackendPoolBuilder Map
  set_pool_max_idle_per_host max_idle self = record self { pool_max_idle_per_host = some max_idle }

  -- `make_client` is the client builder of the hyper crate with the two settings.
  unfoldable pub build :
      {Headers Body : Type 0}
      → (Option ℕ → Option ℕ → Client Headers Body)
      → BackendPoolBuilder Map
      → BackendPool Headers Body Map
  build make_client self = record {
    matcher = self.matcher;
    addresses = self.addresses;
    health_config = self.health_config;
    strategy = self.strategy;
    chain = self.chain;
    client = make_client self.pool_idle_timeout self.pool_max_idle_per_host;
    schemes = self.schemes;
  }

abbrev pub is_healthy : Healthiness → Bool
is_healthy h = healthiness_eq h healthy

abbrev pub is_slow : Healthiness → Bool
is_slow healthy = false
is_slow (slow _) = true
is_slow (unresponsive _) = false

module _ {Headers Body Map : Type 0} where
  unfoldable pub supports : BackendPool Headers Body Map → Scheme → Bool
  supports self scheme = any (λ s. scheme_eq s scheme) self.schemes

  -- `PartialEq` of pools.
  unfoldable pub pool_eq : BackendPool Headers Body Map → BackendPool Headers Body Map → Bool
  pool_eq self other = matcher_eq self.matcher other.matcher

  -- The addresses of the healthy backends, or, if there is none, those of the slow ones.
  unfoldable pub working_addresses : BackendPool Headers Body Map → List Text
  working_addresses pool =
      let healthy_addresses = map (λ a. a.0) (filter (λ a. is_healthy a.1) pool.addresses) in
      let slow_addresses = map (λ a. a.0) (filter (λ a. is_slow a.1) pool.addresses) in
      if is_empty healthy_addresses then slow_addresses else healthy_addresses

module _ {Headers Value Body Map : Type 0} (hyper : Http Headers Value Body)
    (matching : Matching) where
  -- The pool that `pool_by_req` finds takes the request's scheme and its matcher matches.
  unfoldable pub serves : Scheme → Request Headers Body → BackendPool Headers Body Map → Bool
  unfolding supports
  serves scheme request pool = supports pool scheme && matches hyper matching pool.matcher request

  unfoldable pub pool_by_req :
      List (BackendPool Headers Body Map)
      → Request Headers Body
      → Scheme
      → Option (BackendPool Headers Body Map)
  unfolding supports
  pool_by_req backend_pools request scheme =
      find (λ pool. matches hyper matching pool.matcher request)
        (filter (λ pool. supports pool scheme) backend_pools)

  -- The pool that was found, as it is afterwards, in its place.
  unfoldable pub store :
      Scheme
      → Request Headers Body
      → BackendPool Headers Body Map
      → List (BackendPool Headers Body Map)
      → List (BackendPool Headers Body Map)
  unfolding serves
  store scheme request pool [] = []
  store scheme request pool (p ∷ pools) =
      let rest = store scheme request pool pools in
      if serves scheme request p then pool ∷ pools else p ∷ rest

module _ {Headers Value Body Map Connection : Type 0} (hyper : Http Headers Value Body)
    (matching : Matching) (balancing : Dispatch.Outside)
    (outside : Chain.Outside Value Body Map Connection) where
  -- `RequestForwarder::forward_request_to_backend`, with the chain as it is afterwards.
  unfoldable pub forward_request_to_backend :
      RequestForwarder Headers Body
      → Request Headers Body
      → MiddlewareChain Map
      → Scheme
      → SocketAddr
      → Client Headers Body
      → Outcome (MiddlewareChain Map × Response Headers Body)
  unfolding backend_uri modify_response
  forward_request_to_backend self request chain client_scheme client_address client = do
    uri ← backend_uri hyper self request
    (chain_after, response) ← forward_request hyper outside chain request (record {
      client_scheme = client_scheme;
      client_address = client_address;
      backend_uri = uri;
      client = client;
    })
    response ← modify_response self response
    done (chain_after, response)

  -- What `call` does with the pool that it found. `meanwhile` are the notifications that the
  -- connections of the pool's client give to the shared strategy while the request is forwarded.
  unfoldable pub serve :
      List Notification
      → BackendPool Headers Body Map
      → Request Headers Body
      → Scheme
      → SocketAddr
      → Outcome (BackendPool Headers Body Map × Response Headers Body)
  unfolding working_addresses forward_request_to_backend
  serve meanwhile pool request client_scheme client_address =
      let addresses = working_addresses pool in
      let balanced = do
        (strategy, backend) ←
            select_backend hyper balancing pool.strategy request
              (record { client_address = client_address; backend_addresses = addresses })
        (chain, response) ←
            forward_request_to_backend backend request pool.chain client_scheme client_address
              pool.client
        done (record pool { strategy = notified meanwhile strategy; chain = chain }, response)
      in if is_empty addresses then done (pool, bad_gateway hyper) else balanced

  -- `MainService::call`.
  unfoldable pub call :
      List Notification
      → SharedData Headers Body Map
      → Request Headers Body
      → Scheme
      → SocketAddr
      → Outcome (SharedData Headers Body Map × Response Headers Body)
  unfolding pool_by_req serve store
  call meanwhile shared_data request scheme client_address =
      elim (respond_to_challenge hyper shared_data.acme_handler request) [
        | some response ↦ done (shared_data, response)
        | none ↦ elim (pool_by_req hyper matching shared_data.backend_pools request scheme) [
          | none ↦ done (shared_data, not_found hyper)
          | some pool ↦ do
            (after, response) ← serve meanwhile pool request scheme client_address
            done (
              record shared_data {
                backend_pools = store hyper matching scheme request after shared_data.backend_pools;
              },
              response,
            )
        ]
      ]
