-- ===== src/Middleware/Chain.antt =====
-- `Middleware` and `MiddlewareChain` of src/middleware/mod.rs: the trait object has one constructor
-- for each type that implements the trait, with the state that the type keeps.
pub mod Passing
pub mod Blocked
pub mod Answering
use another_rust_load_balanc.Prelude.{
  ℕ, Text, [], Option, none, some, Result, ok, err, Outcome, done, panic,
}
use another_rust_load_balanc.Prelude.Panics.{◌>>=◌}
use another_rust_load_balanc.Http.{Http, Request, Response}
use another_rust_load_balanc.ErrorResponse.{handle_bad_gateway}
use another_rust_load_balanc.Utils.{unwrap_result}
use another_rust_load_balanc.Middleware.{Context, backend_request}
use another_rust_load_balanc.Middleware.Authentication as Auth
use another_rust_load_balanc.Middleware.Authentication.{Authentication, Ldap}
use another_rust_load_balanc.Middleware.Compression as Compress
use another_rust_load_balanc.Middleware.Compression.{Encoding}
use another_rust_load_balanc.Middleware.CustomErrorPages as ErrorPages
use another_rust_load_balanc.Middleware.CustomErrorPages.{CustomErrorPages, Files}
use another_rust_load_balanc.Middleware.HttpsRedirector as Https
use another_rust_load_balanc.Middleware.HttpsRedirector.{Authorities}
use another_rust_load_balanc.Middleware.MaxBodySize as BodySize
use another_rust_load_balanc.Middleware.MaxBodySize.{MaxBodySize}
use another_rust_load_balanc.Middleware.RateLimiter as Rate
use another_rust_load_balanc.Middleware.RateLimiter.{RateLimiter, LinkedHashMap}

pub data Middleware (Map : Type 0) : Type 0 where
  authentication : Authentication → Middleware Map
  compression : Middleware Map
  custom_error_pages : CustomErrorPages → Middleware Map
  https_redirector : Middleware Map
  max_body_size : MaxBodySize → Middleware Map
  rate_limiter : RateLimiter Map → Middleware Map

pub data MiddlewareChain (Map : Type 0) : Type 0 where
  empty : MiddlewareChain Map
  entry : Middleware Map → MiddlewareChain Map → MiddlewareChain Map

-- What the middlewares take from outside: the crates, the file system, the directory's server, the
-- name of the host, and the instant at which a rate limiter reads the clock. A chain that comes from
-- a configuration has at most one rate limiter, so that one instant is enough for a request.
pub record Outside (Value Body Map Connection : Type 0) : Type 0 where
  pub ldap : Ldap Connection
  pub encode : Encoding → Body → Body
  pub from_static : Text → Value
  pub files : Files
  pub authorities : Authorities
  pub maps : LinkedHashMap Map
  pub hostname : Option Text
  pub now : ℕ

module _ {Headers Value Body Map Connection : Type 0} (hyper : Http Headers Value Body)
    (outside : Outside Value Body Map Connection) where
  -- The trait's `modify_request`, with its default for the types that do not define it. A rate
  -- limiter is another one afterwards.
  unfoldable pub modify_request :
      Middleware Map
      → Request Headers Body
      → Context Headers Body
      → Outcome (Middleware Map × Result (Request Headers Body) (Response Headers Body))
  modify_request (authentication self) request context = do
    result ← Auth.modify_request hyper outside.ldap self request
    done (authentication self, result)
  modify_request compression request context = done (compression, ok request)
  modify_request (custom_error_pages self) request context =
      done (custom_error_pages self, ok request)
  modify_request https_redirector request context = done (
    https_redirector,
    Https.modify_request hyper outside.authorities context.client_scheme request,
  )
  modify_request (max_body_size self) request context =
      done (max_body_size self, BodySize.modify_request hyper self request)
  modify_request (rate_limiter self) request context =
      let (next, result) =
        Rate.modify_request outside.maps hyper outside.now context.client_address self request in
      done (rate_limiter next, result)

  -- The trait's `modify_response`, with its default.
  unfoldable pub modify_response : Middleware Map → Response Headers Body → Response Headers Body
  modify_response (custom_error_pages self) response =
      ErrorPages.modify_response hyper outside.files self response
  modify_response (authentication _) response = response
  modify_response compression response = response
  modify_response https_redirector response = response
  modify_response (max_body_size _) response = response
  modify_response (rate_limiter _) response = response

  abbrev pub Forwarded : Type 0
  Forwarded = Outcome (MiddlewareChain Map × Response Headers Body)

  -- An answer of the middleware itself leaves the chain behind it alone; otherwise that chain is
  -- called and its response is modified.
  unfoldable pub after_request :
      MiddlewareChain Map
      → (Request Headers Body → Forwarded)
      → Middleware Map × Result (Request Headers Body) (Response Headers Body)
      → Forwarded
  unfolding modify_response
  after_request chain next (middleware, ok request) = do
    (chain_after, response) ← next request
    done (entry middleware chain_after, modify_response middleware response)
  after_request chain next (middleware, err response) = done (entry middleware chain, response)

  -- The trait's `forward_request`, which `Compression` overrides; `next` forwards through `chain`.
  unfoldable pub middleware_forward_request :
      Middleware Map
      → Request Headers Body
      → MiddlewareChain Map
      → (Request Headers Body → Forwarded)
      → Context Headers Body
      → Forwarded
  unfolding modify_request after_request
  middleware_forward_request compression request chain next context = do
    let encoding = Compress.get_preferred_encoding hyper request.headers
    (chain_after, response) ← next request
    done (
      entry compression chain_after,
      Compress.encode_response hyper outside.encode outside.from_static encoding response,
    )
  middleware_forward_request (authentication self) request chain next context =
      modify_request (authentication self) request context >>= after_request chain next
  middleware_forward_request (custom_error_pages self) request chain next context =
      modify_request (custom_error_pages self) request context >>= after_request chain next
  middleware_forward_request https_redirector request chain next context =
      modify_request https_redirector request context >>= after_request chain next
  middleware_forward_request (max_body_size self) request chain next context =
      modify_request (max_body_size self) request context >>= after_request chain next
  middleware_forward_request (rate_limiter self) request chain next context =
      modify_request (rate_limiter self) request context >>= after_request chain next

  -- What the client returns, with its error as a result.
  abbrev pub client_result : Option (Response Headers Body) → Result (Response Headers Body) Text
  client_result none = err []
  client_result (some response) = ok response

  -- `Result::map_err`.
  abbrev pub map_err :
      (Text → Response Headers Body)
      → Result (Response Headers Body) Text
      → Result (Response Headers Body) (Response Headers Body)
  map_err f (ok t) = ok t
  map_err f (err e) = err (f e)

  -- `MiddlewareChain::forward_request`.
  unfoldable pub forward_request :
      MiddlewareChain Map → Request Headers Body → Context Headers Body → Forwarded
  unfolding middleware_forward_request unwrap_result
  forward_request empty request context = do
    request_to_backend ← backend_request hyper outside.hostname request context
    done (
      empty,
      unwrap_result
          (map_err (handle_bad_gateway hyper) (client_result (context.client request_to_backend))),
    )
  forward_request (entry middleware chain) request context =
      middleware_forward_request middleware request chain
        (λ passed. forward_request chain passed context) context
