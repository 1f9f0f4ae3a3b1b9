-- ===== src/Middleware/Chain/Answering.antt =====
-- Every request gets a response from the chain of src/middleware/mod.rs.
use another_rust_load_balanc.Prelude.{
  Text, ◌≡◌, refl, true, some, Result, ok, err, Outcome, done, panic, All, is_some, List, [], ◌∷◌,
  Option-cases, inl, inr,
}
use another_rust_load_balanc.Prelude.Panics.{◌>>=◌, Returns, Returns-then}
use another_rust_load_balanc.Http.{Http, Request, Response, HeaderName}
use another_rust_load_balanc.Middleware.{
  Context, added_headers, append_texts, append_values, backend_request,
}
use another_rust_load_balanc.Middleware.Authentication as Auth
use another_rust_load_balanc.Middleware.Chain.{
  Middleware, authentication, compression, custom_error_pages, https_redirector, max_body_size,
  rate_limiter, MiddlewareChain, empty, entry, Outside, modify_request, after_request,
  middleware_forward_request, forward_request,
}
use another_rust_load_balanc.Middleware.Chain.Passing.{Unchanged, modify_request-Unchanged}

Returns-bind :
    {A B : Type 0} (f : A → B) (o : Outcome A) → Returns o → Returns (o >>= λ a. done (f a))
Returns-bind f o r = Returns-then (λ a. done (f a)) o r (λ a. tt)

module _ {Headers Value Body Map Connection : Type 0} (hyper : Http Headers Value Body)
    (outside : Outside Value Body Map Connection) (request : Request Headers Body)
    (context : Context Headers Body) where
  abbrev pub AreValid : List (HeaderName × Text) → Type 0
  AreValid = All (λ h. is_some (hyper.from_str h.1) ≡ true)

  append_texts-Returns :
      (l : List (HeaderName × Text)) (m : Headers)
      → AreValid l
      → (headers : Headers) × (append_texts hyper l m ≡ some headers)
  unfolding append_texts
  append_texts-Returns [] m h = (m, refl)
  append_texts-Returns ((k, t) ∷ l) m h = elim (Option-cases (hyper.from_str t)) [
    | inl e ↦ cc (rw e at h.0)
    | inr (v, e) ↦ rw e (append_texts-Returns l (hyper.append k v m) h.1)
  ]

  backend_request-Returns :
      AreValid (added_headers hyper outside.hostname request context)
      → Returns (backend_request hyper outside.hostname request context)
  unfolding backend_request
  backend_request-Returns valid =
      let copied = append_values hyper (hyper.iter request.headers) hyper.empty in
      let (headers, e) =
        append_texts-Returns (added_headers hyper outside.hostname request context) copied valid in
      rw e tt

  -- What comes back of a call that returns and that passes on the request itself, if at all.
  after_request-Returns :
      (chain : MiddlewareChain Map)
      (next : Request Headers Body → Outcome (MiddlewareChain Map × Response Headers Body))
      (o : Outcome (Middleware Map × Result (Request Headers Body) (Response Headers Body)))
      → Returns o
      → Unchanged hyper outside request context o
      → Returns (next request)
      → Returns (o >>= after_request hyper outside chain next)
  unfolding after_request
  after_request-Returns chain next panic r u n = r
  after_request-Returns chain next (done (m, err response)) r u n = tt
  after_request-Returns chain next (done (m, ok passed)) r u n =
      rw u (Returns-bind _ (next request) n)

  module _ (literal : Returns (Auth.response_unauthorized hyper)) where
    answered :
        (m : Middleware Map) (o : Outcome (Response Headers Body))
        → Returns o
        → Returns {A = Middleware Map × Result (Request Headers Body) (Response Headers Body)}
            ((o >>= λ r. done (err r)) >>= λ result. done (m, result))
    answered m (done r) h = tt
    answered m panic h = h

    modify_request-Returns :
        (m : Middleware Map) → Returns (modify_request hyper outside m request context)
    unfolding modify_request Auth.modify_request
    modify_request-Returns (authentication self) =
        elim (Option-cases (Auth.user_authentication hyper outside.ldap self request.headers)) [
          | inl e ↦
              rw (e, Auth.modify_request)
                (answered (authentication self) (Auth.response_unauthorized hyper) literal)
          | inr (u, e) ↦ rw (e, Auth.modify_request) tt
        ]
    modify_request-Returns compression = tt
    modify_request-Returns (custom_error_pages self) = tt
    modify_request-Returns https_redirector = tt
    modify_request-Returns (max_body_size self) = tt
    modify_request-Returns (rate_limiter self) = tt

    onward :
        (m : Middleware Map) (chain : MiddlewareChain Map)
        (next : Request Headers Body → Outcome (MiddlewareChain Map × Response Headers Body))
        → Returns (next request)
        → Returns (
            modify_request hyper outside m request context
            >>= after_request hyper outside chain next)
    onward m chain next n =
        after_request-Returns chain next (modify_request hyper outside m request context)
          (modify_request-Returns m) (modify_request-Unchanged hyper outside request context m) n

    middleware-Returns :
        (m : Middleware Map) (chain : MiddlewareChain Map)
        (next : Request Headers Body → Outcome (MiddlewareChain Map × Response Headers Body))
        → Returns (next request)
        → Returns (middleware_forward_request hyper outside m request chain next context)
    unfolding middleware_forward_request
    middleware-Returns compression chain next n = Returns-bind _ (next request) n
    middleware-Returns (authentication self) chain next n =
        onward (authentication self) chain next n
    middleware-Returns (custom_error_pages self) chain next n =
        onward (custom_error_pages self) chain next n
    middleware-Returns https_redirector chain next n = onward https_redirector chain next n
    middleware-Returns (max_body_size self) chain next n = onward (max_body_size self) chain next n
    middleware-Returns (rate_limiter self) chain next n = onward (rate_limiter self) chain next n

    -- When the literal of the response 401 is a header value, and so are the texts of the headers
    -- that the load balancer adds to this request, then the chain returns a response, whatever its
    -- middlewares are and whatever the backend does; it does not panic.
    pub forward_request-Returns :
        AreValid (added_headers hyper outside.hostname request context)
        → (chain : MiddlewareChain Map)
        → Returns (forward_request hyper outside chain request context)
    unfolding forward_request
    forward_request-Returns valid empty =
        Returns-bind _ (backend_request hyper outside.hostname request context)
          (backend_request-Returns valid)
    forward_request-Returns valid (entry m chain) =
        middleware-Returns m chain (λ r. forward_request hyper outside chain r context)
          (forward_request-Returns valid chain)
