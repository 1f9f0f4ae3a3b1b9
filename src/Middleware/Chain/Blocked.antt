-- ===== src/Middleware/Chain/Blocked.antt =====
-- When the chain of src/middleware/mod.rs keeps a request from the backend.
use another_rust_load_balanc.Prelude.{
  ◌≡◌, refl, false, Option, none, Result, ok, err, Outcome, done, panic,
}
use another_rust_load_balanc.Prelude.Results
use another_rust_load_balanc.Prelude.Panics.{◌>>=◌}
use another_rust_load_balanc.Http.{Http, Request, Response}
use another_rust_load_balanc.Scheme.{http}
use another_rust_load_balanc.Middleware.{Context}
use another_rust_load_balanc.Middleware.Authentication as Auth
use another_rust_load_balanc.Middleware.HttpsRedirector as Https
use another_rust_load_balanc.Middleware.RateLimiter as Rate
use another_rust_load_balanc.Middleware.Chain.{
  Middleware, authentication, compression, custom_error_pages, https_redirector, max_body_size,
  rate_limiter, MiddlewareChain, entry, Outside, modify_request, after_request,
  middleware_forward_request, forward_request,
}
use another_rust_load_balanc.Middleware.Chain.Passing.{Unchanged, modify_request-Unchanged}

module _ {Headers Value Body Map Connection : Type 0} (hyper : Http Headers Value Body)
    (outside : Outside Value Body Map Connection) (request : Request Headers Body)
    (context : Context Headers Body) where
  -- The middlewares that must not let the request pass: an authentication that does not know the
  -- user, a redirector of a request over plain HTTP, a rate limiter that is at its limit.
  abbrev pub Blocks : Middleware Map → Type 0
  Blocks (authentication self) =
      Auth.user_authentication hyper outside.ldap self request.headers ≡ none
  Blocks https_redirector = context.client_scheme ≡ http
  Blocks (rate_limiter self) =
      (Rate.register_request outside.maps outside.now context.client_address self).0 ≡ false
  Blocks compression = ⊥
  Blocks (custom_error_pages _) = ⊥
  Blocks (max_body_size _) = ⊥

  pub data Blocked : MiddlewareChain Map → Type 0 where
    here :
        (middleware : Middleware Map) (chain : MiddlewareChain Map)
        → Blocks middleware
        → Blocked (entry middleware chain)
    there :
        (middleware : Middleware Map) (chain : MiddlewareChain Map)
        → Blocked chain
        → Blocked (entry middleware chain)

  abbrev with_client :
      (Request Headers Body → Option (Response Headers Body)) → Context Headers Body
  with_client client = record context { client = client }

  module _ (client : Request Headers Body → Option (Response Headers Body))
      (chain : MiddlewareChain Map)
      (next after : Request Headers Body
        → Outcome (MiddlewareChain Map × Response Headers Body)) where
    answered :
        (m : Middleware Map) (o : Outcome (Response Headers Body))
        → (((o >>= λ r. done (err r)) >>= λ result. done (m, result))
            >>= after_request hyper outside chain next)
          ≡ (((o >>= λ r. done (err r)) >>= λ result. done (m, result))
              >>= after_request hyper outside chain after)
    unfolding after_request
    answered m (done r) = refl
    answered m panic = refl

    redirected :
        (m : Middleware Map) (r : Result (Response Headers Body) (Response Headers Body))
        → after_request hyper outside chain next (m, Results.◌>>=◌ r (λ response. err response))
          ≡ after_request hyper outside chain after (m, Results.◌>>=◌ r (λ response. err response))
    unfolding after_request
    redirected m (ok r) = refl
    redirected m (err r) = refl

    -- A middleware that blocks never calls what is behind it.
    blocking :
        (m : Middleware Map)
        → Blocks m
        → middleware_forward_request hyper outside m request chain next context
          ≡ middleware_forward_request hyper outside m request chain after (with_client client)
    unfolding middleware_forward_request modify_request Auth.modify_request Https.modify_request
        Rate.modify_request after_request
    blocking (authentication self) h =
        rw (h, Auth.modify_request)
          (answered (authentication self) (Auth.response_unauthorized hyper))
    blocking https_redirector h =
        rw (h, Https.modify_request)
          (redirected https_redirector (Https.redirect hyper outside.authorities request))
    blocking (rate_limiter self) h = rw h refl
    blocking compression h = elim h [ ]
    blocking (custom_error_pages _) h = elim h [ ]
    blocking (max_body_size _) h = elim h [ ]

    handed_on :
        (o : Outcome (Middleware Map × Result (Request Headers Body) (Response Headers Body)))
        → Unchanged hyper outside request context o
        → next request ≡ after request
        → (o >>= after_request hyper outside chain next)
          ≡ (o >>= after_request hyper outside chain after)
    unfolding after_request
    handed_on panic u e = refl
    handed_on (done (m, err r)) u e = refl
    handed_on (done (m, ok r)) u e = rw (u, e) refl

    -- A middleware calls what is behind it with the request itself, if at all.
    passing :
        (m : Middleware Map)
        → next request ≡ after request
        → middleware_forward_request hyper outside m request chain next context
          ≡ middleware_forward_request hyper outside m request chain after (with_client client)
    unfolding middleware_forward_request modify_request
    passing compression e = rw e refl
    passing (authentication self) e =
        handed_on (modify_request hyper outside (authentication self) request context)
          (modify_request-Unchanged hyper outside request context (authentication self)) e
    passing (custom_error_pages self) e =
        handed_on (modify_request hyper outside (custom_error_pages self) request context)
          (modify_request-Unchanged hyper outside request context (custom_error_pages self)) e
    passing https_redirector e =
        handed_on (modify_request hyper outside https_redirector request context)
          (modify_request-Unchanged hyper outside request context https_redirector) e
    passing (max_body_size self) e =
        handed_on (modify_request hyper outside (max_body_size self) request context)
          (modify_request-Unchanged hyper outside request context (max_body_size self)) e
    passing (rate_limiter self) e =
        handed_on (modify_request hyper outside (rate_limiter self) request context)
          (modify_request-Unchanged hyper outside request context (rate_limiter self)) e

  -- If somewhere in the chain stands an authentication that does not know the request's user, a
  -- redirector while the client's scheme is plain HTTP, or a rate limiter that does not allow the
  -- request, then the backend's client has no part in what becomes of the request: with any other
  -- client the chain and the response come out the same.
  pub forward_request-Blocked :
      (client : Request Headers Body → Option (Response Headers Body)) {chain : MiddlewareChain Map}
      → Blocked chain
      → forward_request hyper outside chain request context
        ≡ forward_request hyper outside chain request (with_client client)
  unfolding forward_request
  forward_request-Blocked client (here m chain h) =
      blocking client chain (λ r. forward_request hyper outside chain r context)
        (λ r. forward_request hyper outside chain r (with_client client)) m h
  forward_request-Blocked client (there m chain b) =
      passing client chain (λ r. forward_request hyper outside chain r context)
        (λ r. forward_request hyper outside chain r (with_client client)) m
        (forward_request-Blocked client b)
