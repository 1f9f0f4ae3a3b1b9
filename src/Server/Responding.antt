-- ===== src/Server/Responding.antt =====
-- Every request gets a response from src/server.rs, under conditions on the pools.
use another_rust_load_balanc.Prelude.{
  ℕ, ◌<◌, ◌≡◌, refl, Text, codes, Bool, true, false, some, List, [], ◌∷◌, ◌++◌, All, In, length,
  is_empty, is_some, done, Bool-cases, inl, inr, arith,
}
use another_rust_load_balanc.Prelude.Panics.{Returns, Returns-then}
use another_rust_load_balanc.Http.{Uri, Http, Request, Response, SocketAddr}
use another_rust_load_balanc.Scheme.{Scheme}
use another_rust_load_balanc.Matcher.{Matching}
use another_rust_load_balanc.LoadBalancing.{RequestForwarder, backend_uri, modify_response}
use another_rust_load_balanc.LoadBalancing as Balance
use another_rust_load_balanc.LoadBalancing.RoundRobin.{u32_mod}
use another_rust_load_balanc.LoadBalancing.StickyCookie.{SameSite}
use another_rust_load_balanc.LoadBalancing.LeastConnection.Unused.{IsDistinct}
use another_rust_load_balanc.LoadBalancing.Dispatch as Dispatch
use another_rust_load_balanc.LoadBalancing.Dispatch.{select_backend}
use another_rust_load_balanc.LoadBalancing.Dispatch.Total.{IsReady, select_backend_total}
use another_rust_load_balanc.LoadBalancing.Dispatch.Mapping.{select_backend-Maps}
use another_rust_load_balanc.Middleware as Ware
use another_rust_load_balanc.Middleware.{added_headers}
use another_rust_load_balanc.Middleware.Authentication.{response_unauthorized}
use another_rust_load_balanc.Middleware.Chain as Chain
use another_rust_load_balanc.Middleware.Chain.{forward_request}
use another_rust_load_balanc.Middleware.Chain.Answering.{AreValid, forward_request-Returns}
use another_rust_load_balanc.Server.{
  BackendPool, SharedData, Client, working_addresses, forward_request_to_backend, serve, call,
}
use another_rust_load_balanc.Server.Answers.{served, challenge, no_pool, by_pool, call-Answered}

module _ {Headers Value Body Map Connection : Type 0} (hyper : Http Headers Value Body)
    (matching : Matching) (balancing : Dispatch.Outside)
    (outside : Chain.Outside Value Body Map Connection)
    (in_range : (n : ℕ) → 0 < n → balancing.gen_range n < n)
    (settable : (name value : Text) (http_only secure : Bool) (site : SameSite)
      → is_some (hyper.from_str (balancing.cookies.build name value http_only secure site)) ≡ true)
    (literal : Returns (response_unauthorized hyper)) (request : Request Headers Body)
    (scheme : Scheme) (client_address : SocketAddr) (path : Text)
    (has_path : request.uri.path_and_query ≡ some path) where
  abbrev pub context_to : Client Headers Body → Uri → Ware.Context Headers Body
  context_to client uri = record {
    client_scheme = scheme;
    client_address = client_address;
    backend_uri = uri;
    client = client;
  }

  -- A pool whose working addresses are distinct, fewer than 2^32, parts of a URI, and cover the
  -- backends that its strategy counted, and to which the headers of the request can be sent.
  abbrev pub IsServable : BackendPool Headers Body Map → Type 0
  IsServable pool =
      (length (working_addresses pool) < u32_mod)
      × IsDistinct (working_addresses pool)
      × IsReady pool.strategy (working_addresses pool)
      × ((a : Text)
          → In a (working_addresses pool)
          → (uri : Uri) × (hyper.build_uri (codes "http") a path ≡ some uri))
      × ((uri : Uri)
          → AreValid hyper outside request (context_to pool.client uri)
              (added_headers hyper outside.hostname request (context_to pool.client uri)))

  module _ (pool : BackendPool Headers Body Map) (servable : IsServable pool) where
    located :
        (forwarder : RequestForwarder Headers Body) {uri : Uri}
        → hyper.build_uri (codes "http") forwarder.backend_address path ≡ some uri
        → backend_uri hyper forwarder request ≡ done uri
    unfolding backend_uri
    located forwarder built = rw (has_path, built) refl

    forwards :
        (forwarder : RequestForwarder Headers Body)
        → In forwarder.backend_address (working_addresses pool)
        → ((response : Response Headers Body) → Returns (forwarder.response_mapper response))
        → Returns (
            forward_request_to_backend hyper matching balancing outside forwarder request pool.chain
              scheme client_address pool.client)
    unfolding forward_request_to_backend modify_response
    forwards forwarder member maps =
        let (uri, built) = servable.3 forwarder.backend_address member in
        rw (located forwarder built) (
          Returns-then _
            (forward_request hyper outside pool.chain request (context_to pool.client uri))
            (forward_request-Returns hyper outside request (context_to pool.client uri) literal
              (servable.4 uri) pool.chain)
            (λ r. Returns-then _ (forwarder.response_mapper r.1) (maps r.1) (λ mapped. tt)))

    abbrev context : Balance.Context
    context = record { client_address = client_address; backend_addresses = working_addresses pool }

    some_left : (l : List Text) → is_empty l ≡ false → 0 < length l
    some_left [] e = cc
    some_left (a ∷ l) e = omega arith

    serve-Returns :
        (meanwhile : List Dispatch.Notification)
        → Returns
            (serve hyper matching balancing outside meanwhile pool request scheme client_address)
    unfolding serve
    serve-Returns meanwhile = elim (Bool-cases (is_empty (working_addresses pool))) [
      | inl e ↦ rw e tt
      | inr e ↦
          let (next, forwarder, is, member, ready) =
            select_backend_total hyper balancing request context in_range
              (some_left (working_addresses pool) e) servable.0 servable.1 pool.strategy
              servable.2 in
          let maps =
            rw is at (select_backend-Maps hyper balancing request context settable pool.strategy) in
          rw (e, is)
            (Returns-then _
              (forward_request_to_backend hyper matching balancing outside forwarder request
                pool.chain scheme client_address pool.client)
              (forwards forwarder member maps) (λ r. tt))
    ]

  All-middle :
      (before after : List (BackendPool Headers Body Map)) (pool : BackendPool Headers Body Map)
      → All IsServable (before ++ pool ∷ after)
      → IsServable pool
  All-middle [] after pool a = a.0
  All-middle (p ∷ before) after pool a = All-middle before after pool a.1

  -- A request with a path gets a response, and the call does not panic, when every pool is servable
  -- for it, the random generator draws from its range, the text of every cookie that the cookie
  -- crate builds is a header value, and so is the literal of the response 401.
  pub call-Returns :
      (meanwhile : List Dispatch.Notification) (shared_data : SharedData Headers Body Map)
      → All IsServable shared_data.backend_pools
      → Returns (
          call hyper matching balancing outside meanwhile shared_data request scheme client_address)
  call-Returns meanwhile shared_data servable =
      elim (call-Answered hyper matching balancing outside meanwhile shared_data request scheme
        client_address) [
          | challenge response found answer ↦ rw answer tt
          | no_pool no_challenge none_serves answer ↦ rw answer tt
          | by_pool no_challenge (served before after pool at a t answer e) ↦ rw answer (
              Returns-then _
                (serve hyper matching balancing outside meanwhile pool request scheme
                  client_address)
                (serve-Returns pool (All-middle before after pool (rw at at servable)) meanwhile)
                (λ r. tt))
        ]
