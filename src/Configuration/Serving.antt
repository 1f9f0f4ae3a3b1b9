-- ===== src/Configuration/Serving.antt =====
-- The pools that src/configuration.rs has just made serve every request in src/server.rs.
mod Tests
use mathlib.Core.Path.{subst}
use another_rust_load_balanc.Prelude.{
  ℕ, Bool, ◌<◌, ◌≡◌, refl, sym, ap, ◌∙◌, Text, codes, true, Option, none, some, List, [], ◌∷◌, All,
  In, length, map, filter, is_empty, is_some, Outcome, done, panic, inl, inr, if◌then◌else◌,
}
use another_rust_load_balanc.Prelude.Panics.{Returns, >>=-eq-done, done-injective}
use another_rust_load_balanc.Http.{Uri, Http, Request, SocketAddr}
use another_rust_load_balanc.Scheme.{Scheme}
use another_rust_load_balanc.Health.{Healthiness, healthy, healthiness_eq}
use another_rust_load_balanc.Matcher.{Matching, BackendPoolMatcher}
use another_rust_load_balanc.Matcher.Pom.{Pom}
use another_rust_load_balanc.Matcher.Grammar.{Accepted, from}
use another_rust_load_balanc.LoadBalancing.RoundRobin.{u32_mod}
use another_rust_load_balanc.LoadBalancing.StickyCookie.{SameSite}
use another_rust_load_balanc.LoadBalancing.LeastConnection.Unused.{IsDistinct}
use another_rust_load_balanc.LoadBalancing.Dispatch as Dispatch
use another_rust_load_balanc.LoadBalancing.Dispatch.Total.{IsReady}
use another_rust_load_balanc.Middleware.{added_headers}
use another_rust_load_balanc.Middleware.Authentication.{response_unauthorized}
use another_rust_load_balanc.Middleware.RateLimiter.{LinkedHashMap}
use another_rust_load_balanc.Middleware.Chain as Chain
use another_rust_load_balanc.Middleware.Chain.Answering.{AreValid}
use another_rust_load_balanc.Acme.{AcmeHandler}
use another_rust_load_balanc.Server.{
  BackendPool, BackendPoolBuilder, Client, new_builder, build, set_pool_idle_timeout,
  set_pool_max_idle_per_host, working_addresses, call, is_healthy, is_slow,
}
use another_rust_load_balanc.Server.Responding.{IsServable, context_to, call-Returns}
use another_rust_load_balanc.Configuration.{
  Toml, ClientConfig, BackendPoolConfig, chain_from, strategy_from,
}
use another_rust_load_balanc.Configuration.Pools.{
  with_timeout, with_max_idle, configured, pool_from, pools_from,
}
use another_rust_load_balanc.Configuration.Chains.{strategy_from-IsReady}
use another_rust_load_balanc.Configuration.Made.{healthy-working, pool_from-fields}

module _ {Value Table Headers Body Map : Type 0} (toml : Toml Value Table)
    (maps : LinkedHashMap Map) (pom : Pom) (accepted : Accepted)
    (make_client : Option ℕ → Option ℕ → Client Headers Body) where
  module _ {HeaderValue Connection : Type 0} (hyper : Http Headers HeaderValue Body)
      (matching : Matching) (balancing : Dispatch.Outside)
      (outside : Chain.Outside HeaderValue Body Map Connection)
      (in_range : (n : ℕ) → 0 < n → balancing.gen_range n < n)
      (settable : (name value : Text) (http_only secure : Bool) (site : SameSite)
        → is_some (hyper.from_str (balancing.cookies.build name value http_only secure site))
          ≡ true)
      (literal : Returns (response_unauthorized hyper)) (request : Request Headers Body)
      (scheme : Scheme) (client_address : SocketAddr) (path : Text)
      (has_path : request.uri.path_and_query ≡ some path) where
    abbrev Servable : BackendPool Headers Body Map → Type 0
    Servable =
        IsServable hyper matching balancing outside in_range settable literal request scheme
          client_address path has_path

    -- The addresses of a pool in the file are distinct, fewer than 2^32, and parts of a URI.
    abbrev pub IsUsable : BackendPoolConfig Table → Type 0
    IsUsable config =
        (length config.addresses < u32_mod)
        × IsDistinct config.addresses
        × ((a : Text)
            → In a config.addresses
            → (uri : Uri) × (hyper.build_uri (codes "http") a path ≡ some uri))

    -- Whatever the client and the backend, the headers that the middlewares add to the request can
    -- be sent.
    abbrev pub CanForward : Type 0
    CanForward =
        (client : Client Headers Body) (uri : Uri)
        → let context =
            context_to hyper matching balancing outside in_range settable literal request scheme
              client_address path has_path client uri in
          AreValid hyper outside request context
            (added_headers hyper outside.hostname request context)

    module _ (can_forward : CanForward) where
      pool_from-IsServable :
          (config : BackendPoolConfig Table) {pool : BackendPool Headers Body Map}
          → pool_from toml maps pom accepted make_client config ≡ done pool
          → IsUsable config
          → Servable pool
      pool_from-IsServable config {pool} made usable =
          let (addresses, strategy, schemes) =
            pool_from-fields toml maps pom accepted make_client config made in
          let working = healthy-working pool config.addresses addresses in
          rw (working, strategy)
            (
              usable.0,
              usable.1,
              strategy_from-IsReady config.strategy config.addresses,
              usable.2,
              can_forward pool.client,
            )

      pools_from-IsServable :
          (configs : List (BackendPoolConfig Table)) {pools : List (BackendPool Headers Body Map)}
          → pools_from toml maps pom accepted make_client configs ≡ done pools
          → All IsUsable configs
          → All Servable pools
      unfolding pools_from
      pools_from-IsServable [] {pools} made usable =
          subst (λ (l : List (BackendPool Headers Body Map)). All Servable l) (done-injective made)
            tt
      pools_from-IsServable (config ∷ configs) {pools} made usable =
          let (pool, first, rest) =
            >>=-eq-done (pool_from toml maps pom accepted make_client config) _ made in
          let (others, second, last) =
            >>=-eq-done (pools_from toml maps pom accepted make_client configs) _ rest in
          subst (λ (l : List (BackendPool Headers Body Map)). All Servable l) (done-injective last)
            (
              pool_from-IsServable config first usable.0,
              pools_from-IsServable configs second usable.1,
            )

      -- When the pools of a file are made without a panic, and the addresses of each pool are
      -- distinct, fewer than 2^32, and parts of a URI, then the first call after that does not
      -- panic and answers a request with a path, whatever the challenges that are open: given that
      -- the random generator draws from its range, that the text of a cookie of the cookie crate
      -- and the literal of the response 401 are header values, and that the headers which the
      -- middlewares add to the request can be sent.
      pub pools_from-Returns :
          (meanwhile : List Dispatch.Notification) (configs : List (BackendPoolConfig Table))
          (pools : List (BackendPool Headers Body Map)) (acme_handler : AcmeHandler)
          → pools_from toml maps pom accepted make_client configs ≡ done pools
          → All IsUsable configs
          → Returns (
              call hyper matching balancing outside meanwhile
                (record { backend_pools = pools; acme_handler = acme_handler })
                request
                scheme
                client_address)
      pools_from-Returns meanwhile configs pools acme_handler made usable =
          call-Returns hyper matching balancing outside in_range settable literal request scheme
            client_address path has_path meanwhile
            (record { backend_pools = pools; acme_handler = acme_handler })
            (pools_from-IsServable configs made usable)
