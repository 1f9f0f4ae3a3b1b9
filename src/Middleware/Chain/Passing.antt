-- ===== src/Middleware/Chain/Passing.antt =====
-- The middlewares of src/middleware/ pass on the request that they were given.
use another_rust_load_balanc.Prelude.{
  ◌≡◌, refl, Result, ok, err, Outcome, done, panic, Option-cases, inl, inr, Bool, true, false,
  if◌then◌else◌,
}
use another_rust_load_balanc.Prelude.Panics.{◌>>=◌}
use another_rust_load_balanc.Prelude.Results
use another_rust_load_balanc.Prelude.Int.{ltb_ℤ}
use another_rust_load_balanc.Http.{Http, Request, Response}
use another_rust_load_balanc.Scheme.{Scheme, http, https}
use another_rust_load_balanc.ErrorResponse.{too_many_requests, request_entity_to_large}
use another_rust_load_balanc.Middleware.{Context}
use another_rust_load_balanc.Middleware.Authentication as Auth
use another_rust_load_balanc.Middleware.HttpsRedirector as Https
use another_rust_load_balanc.Middleware.MaxBodySize as BodySize
use another_rust_load_balanc.Middleware.RateLimiter as Rate
use another_rust_load_balanc.Middleware.Chain.{
  Middleware, authentication, compression, custom_error_pages, https_redirector, max_body_size,
  rate_limiter, Outside, modify_request,
}

module _ {Headers Value Body Map Connection : Type 0} (hyper : Http Headers Value Body)
    (outside : Outside Value Body Map Connection) (request : Request Headers Body)
    (context : Context Headers Body) where
  -- A call that passes on the request itself, answers it, or panics.
  abbrev pub Unchanged :
      Outcome (Middleware Map × Result (Request Headers Body) (Response Headers Body)) → Type 0
  Unchanged panic = Unit
  Unchanged (done (_, ok passed)) = passed ≡ request
  Unchanged (done (_, err _)) = Unit

  answered :
      (m : Middleware Map) (o : Outcome (Response Headers Body))
      → Unchanged ((o >>= λ r. done (err r)) >>= λ result. done (m, result))
  answered m (done r) = tt
  answered m panic = tt

  redirected :
      (m : Middleware Map) (r : Result (Response Headers Body) (Response Headers Body))
      → Unchanged (done (m, Results.◌>>=◌ r (λ response. err response)))
  redirected m (ok r) = tt
  redirected m (err r) = tt

  chosen :
      (m : Middleware Map) (b : Bool) (r : Response Headers Body)
      → Unchanged (done (m, if b then ok request else err r))
  chosen m true r = refl
  chosen m false r = tt

  refused :
      (m : Middleware Map) (b : Bool) (r : Response Headers Body)
      → Unchanged (done (m, if b then err r else ok request))
  refused m true r = tt
  refused m false r = refl

  by_scheme :
      (scheme : Scheme)
      → Unchanged
          (done (https_redirector, Https.modify_request hyper outside.authorities scheme request))
  unfolding Https.modify_request
  by_scheme http = redirected https_redirector (Https.redirect hyper outside.authorities request)
  by_scheme https = refl

  by_user :
      (self : Auth.Authentication)
      → Unchanged (modify_request hyper outside (authentication self) request context)
  unfolding modify_request Auth.modify_request
  by_user self =
      elim (Option-cases (Auth.user_authentication hyper outside.ldap self request.headers)) [
        | inl e ↦
            rw (e, Auth.modify_request)
              (answered (authentication self) (Auth.response_unauthorized hyper))
        | inr (u, e) ↦ rw (e, Auth.modify_request) refl
      ]

  by_length :
      (self : BodySize.MaxBodySize)
      → Unchanged (modify_request hyper outside (max_body_size self) request context)
  unfolding modify_request BodySize.modify_request
  by_length self = elim (Option-cases (BodySize.get_content_length hyper request.headers)) [
    | inl e ↦ rw (e, BodySize.modify_request) refl
    | inr (n, e) ↦
        rw (e, BodySize.modify_request)
          (refused (max_body_size self) (ltb_ℤ self.limit n) (request_entity_to_large hyper))
  ]

  -- Every middleware answers a request itself, passes on that very request, or panics.
  pub modify_request-Unchanged :
      (middleware : Middleware Map)
      → Unchanged (modify_request hyper outside middleware request context)
  unfolding modify_request Rate.modify_request
  modify_request-Unchanged (authentication self) = by_user self
  modify_request-Unchanged compression = refl
  modify_request-Unchanged (custom_error_pages self) = refl
  modify_request-Unchanged https_redirector = by_scheme context.client_scheme
  modify_request-Unchanged (max_body_size self) = by_length self
  modify_request-Unchanged (rate_limiter self) =
      let (allowed, next) =
        Rate.register_request outside.maps outside.now context.client_address self in
      chosen (rate_limiter next) allowed (too_many_requests hyper)
