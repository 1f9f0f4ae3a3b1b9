-- ===== src/Server/Tests.antt =====
-- Runs of the theorems on src/server.rs at concrete inputs.
use another_rust_load_balanc.Prelude.{
  ℕ, ◌<◌, Bool, true, refl, is_some, arith, ◌≡◌, ◌⊎◌, ◌↔◌, Text, codes, some, none, List, [], ◌∷◌,
  All, In, false,
}
use another_rust_load_balanc.Prelude.Panics.{Returns}
use another_rust_load_balanc.Prelude.Int.{pos}
use another_rust_load_balanc.Http.Assoc.{Entries, assoc_http, simple_uri}
use another_rust_load_balanc.Scheme.{http}
use another_rust_load_balanc.Health.{healthy, slow, healthiness_eq}
use another_rust_load_balanc.Matcher.{host}
use another_rust_load_balanc.Samples.{
  one, two, backend, client, request, matching, balancing, outside,
}
use another_rust_load_balanc.LoadBalancing.StickyCookie.{SameSite}
use another_rust_load_balanc.Middleware.{added_headers}
use another_rust_load_balanc.Middleware.Authentication.{response_unauthorized}
use another_rust_load_balanc.LoadBalancing.Dispatch.{round_robin, Notification, tcp_open}
use another_rust_load_balanc.Middleware.Chain.{empty}
use another_rust_load_balanc.Middleware.RateLimiter as Rate
use another_rust_load_balanc.Server.{BackendPool, SharedData, working_addresses, call}
use another_rust_load_balanc.Server.Pools.{
  test, found, First, pool_by_req-First, Usable, working_addresses_iff,
}
use another_rust_load_balanc.Server.Answers.{Answered, call-Answered}
use another_rust_load_balanc.Server.Responding.{IsServable, call-Returns}

abbrev pool : BackendPool Entries Text Rate.Entries
pool = record {
  matcher = host (codes "h");
  addresses = (one, slow (pos 900)) ∷ (two, healthy) ∷ [];
  health_config = record { slow_threshold = pos 300; timeout = 500; path = codes "/" };
  strategy = round_robin 0;
  chain = empty;
  client = λ r. none;
  schemes = http ∷ [];
}

abbrev shared_data : SharedData Entries Text Rate.Entries
shared_data = record { backend_pools = pool ∷ []; acme_handler = [] }

-- The connection that the request opens.
abbrev meanwhile : List Notification
meanwhile = tcp_open (backend two) ∷ []

call-Answered_example :
    Answered assoc_http matching balancing outside meanwhile shared_data request http client
call-Answered_example =
    call-Answered assoc_http matching balancing outside meanwhile shared_data request http client

pool_by_req-First_example :
    ((found assoc_http matching request http (pool ∷ []) ≡ none)
      × All (λ p. test assoc_http matching request http p ≡ false) (pool ∷ []))
    ⊎ ((p : BackendPool Entries Text Rate.Entries) × (found assoc_http matching request http
            (pool ∷ [])
          ≡ some p)
        × First (test assoc_http matching request http) (pool ∷ []) p)
pool_by_req-First_example = pool_by_req-First assoc_http matching request http (pool ∷ [])

working_addresses_iff_example : In two (working_addresses pool) ↔ Usable pool.addresses two
working_addresses_iff_example = working_addresses_iff pool two

in_range : (n : ℕ) → 0 < n → balancing.gen_range n < n
in_range n h = h

literal : Returns (response_unauthorized assoc_http)
unfolding response_unauthorized
literal = tt

settable :
    (name value : Text) (http_only secure : Bool) (site : SameSite)
    → is_some (assoc_http.from_str (balancing.cookies.build name value http_only secure site))
      ≡ true
settable name value http_only secure site = refl

servable :
    IsServable assoc_http matching balancing outside in_range settable literal request http client
      (codes "/")
      refl
      pool
unfolding working_addresses healthiness_eq added_headers
servable = (
  omega arith,
  (tt, tt),
  tt,
  (λ a m. (simple_uri (codes "http") a (codes "/"), refl)),
  (λ uri. (refl, (refl, (refl, (refl, tt))))),
)

call-Returns_example :
    Returns (call assoc_http matching balancing outside meanwhile shared_data request http client)
call-Returns_example =
    call-Returns assoc_http matching balancing outside in_range settable literal request http client
      (codes "/") refl meanwhile shared_data (servable, tt)
