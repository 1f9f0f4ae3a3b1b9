-- ===== src/Server/Answers.antt =====
-- What src/server.rs answers to a request, on every branch of the call.
use another_rust_load_balanc.Prelude.{
  ◌≡◌, refl, ap, sym, ◌∙◌, true, false, none, some, List, ◌∷◌, ◌++◌, All, is_empty, Outcome, done,
  Option-cases, inl, inr,
}
use another_rust_load_balanc.Prelude.Panics.{◌>>=◌, >>=-congr}
use another_rust_load_balanc.Http.{Http, Request, Response, SocketAddr}
use another_rust_load_balanc.ErrorResponse.{bad_gateway, not_found}
use another_rust_load_balanc.Scheme.{Scheme}
use another_rust_load_balanc.Matcher.{Matching}
use another_rust_load_balanc.Acme.{respond_to_challenge}
use another_rust_load_balanc.LoadBalancing.Dispatch as Dispatch
use another_rust_load_balanc.Middleware.Chain as Chain
use another_rust_load_balanc.Server.{
  BackendPool, SharedData, pool_by_req, store, working_addresses, serve, call,
}
use another_rust_load_balanc.Server.Pools.{test, First, first, pool_by_req-First, store-First}

module _ {Headers Value Body Map Connection : Type 0} (hyper : Http Headers Value Body)
    (matching : Matching) (balancing : Dispatch.Outside)
    (outside : Chain.Outside Value Body Map Connection) (meanwhile : List Dispatch.Notification)
    (shared_data : SharedData Headers Body Map) (request : Request Headers Body) (scheme : Scheme)
    (client_address : SocketAddr) where
  abbrev called : Outcome (SharedData Headers Body Map × Response Headers Body)
  called = call hyper matching balancing outside meanwhile shared_data request scheme client_address

  -- One of the pools answers: the first that serves the request. Only that pool changes.
  pub data Served : Type 0 where
    served :
        (before after : List (BackendPool Headers Body Map)) (pool : BackendPool Headers Body Map)
        → shared_data.backend_pools ≡ before ++ pool ∷ after
        → All (λ p. test hyper matching request scheme p ≡ false) before
        → test hyper matching request scheme pool ≡ true
        → called ≡ (
            serve hyper matching balancing outside meanwhile pool request scheme client_address
            >>= λ result.
                done (record shared_data { backend_pools = before ++ result.0 ∷ after }, result.1))
        → (is_empty (working_addresses pool) ≡ true
            → called ≡ done (shared_data, bad_gateway hyper))
        → Served

  pub data Answered : Type 0 where
    challenge :
        (response : Response Headers Body)
        → respond_to_challenge hyper shared_data.acme_handler request ≡ some response
        → called ≡ done (shared_data, response)
        → Answered
    no_pool :
        respond_to_challenge hyper shared_data.acme_handler request ≡ none
        → All (λ p. test hyper matching request scheme p ≡ false) shared_data.backend_pools
        → called ≡ done (shared_data, not_found hyper)
        → Answered
    by_pool : respond_to_challenge hyper shared_data.acme_handler request ≡ none → Served → Answered

  -- What the call comes to with the pool that was found.
  with_pool :
      (pool : BackendPool Headers Body Map)
      → respond_to_challenge hyper shared_data.acme_handler request ≡ none
      → pool_by_req hyper matching shared_data.backend_pools request scheme ≡ some pool
      → called ≡ (
          serve hyper matching balancing outside meanwhile pool request scheme client_address
          >>= λ result. done (
            record shared_data {
              backend_pools =
                  store hyper matching scheme request result.0 shared_data.backend_pools;
            },
            result.1,
          ))
  unfolding call
  with_pool pool e f = rw (e, call, f) refl

  serve_empty :
      (pool : BackendPool Headers Body Map)
      → is_empty (working_addresses pool) ≡ true
      → serve hyper matching balancing outside meanwhile pool request scheme client_address
        ≡ done (pool, bad_gateway hyper)
  unfolding serve
  serve_empty pool e = rw e refl

  by_First :
      (pool : BackendPool Headers Body Map)
      → respond_to_challenge hyper shared_data.acme_handler request ≡ none
      → pool_by_req hyper matching shared_data.backend_pools request scheme ≡ some pool
      → First (test hyper matching request scheme) shared_data.backend_pools pool
      → Served
  by_First pool e f (first before after at a t) =
      let answer =
        with_pool pool e f
        ∙ >>=-congr
            (serve hyper matching balancing outside meanwhile pool request scheme client_address) _
            _
            (λ result.
              ap (λ pools. done (record shared_data { backend_pools = pools }, result.1))
                (ap (store hyper matching scheme request result.0) at
                  ∙ store-First hyper matching request scheme before after pool result.0 a t)) in
      served before after pool at a t answer (λ none_working.
        answer
        ∙ ap
            (λ o. o >>= λ result.
              done (record shared_data { backend_pools = before ++ result.0 ∷ after }, result.1))
            (serve_empty pool none_working)
        ∙ ap (λ pools. done (record shared_data { backend_pools = pools }, bad_gateway hyper))
            (sym at))

  -- Every call takes one of three ways. What the open challenges answer is the answer, whatever the
  -- pools are, and nothing changes. Only where they answer nothing, the pools are asked: if none
  -- takes the scheme and matches the request, the answer is the response 404, and nothing changes.
  -- Otherwise the first such pool serves the request, and no other pool changes; if that pool has no
  -- working address, the answer is the response 502 and nothing changes.
  pub call-Answered : Answered
  unfolding call
  call-Answered =
      elim (Option-cases (respond_to_challenge hyper shared_data.acme_handler request)) [
        | inr (response, e) ↦ challenge response e (rw (e, call) refl)
        | inl e ↦ elim (pool_by_req-First hyper matching request scheme shared_data.backend_pools) [
          | inl (f, a) ↦ no_pool e a (rw (e, call, f) refl)
          | inr (pool, f, cut) ↦ by_pool e (by_First pool e f cut)
        ]
      ]
