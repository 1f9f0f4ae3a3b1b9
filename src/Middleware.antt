-- ===== src/Middleware.antt =====
-- src/middleware/mod.rs: the context of a middleware and the request to the backend. The
-- middlewares are the modules below; `Chain` runs them.
pub mod Forwarding
pub mod RateLimiter
pub mod MaxBodySize
pub mod HttpsRedirector
pub mod CustomErrorPages
pub mod Authentication
pub mod Compression
pub mod Chain
mod Tests
use another_rust_load_balanc.Prelude.{
  ℕ, String, Text, codes, Option, none, some, List, [], ◌∷◌, ◌++◌, Outcome, done, panic, unwrap,
}
use another_rust_load_balanc.Prelude.Options
use another_rust_load_balanc.Prelude.Options.{and_then}
use another_rust_load_balanc.Prelude.Panics.{◌>>=◌}
use another_rust_load_balanc.Http.{Uri, Request, Response, SocketAddr, HeaderName, Http}
use another_rust_load_balanc.Scheme
use another_rust_load_balanc.Scheme.{Scheme, http, https}

-- `client` is the pool's HTTP client: the response of a backend, or an error.
pub record Context (Headers Body : Type 0) : Type 0 where
  pub client_scheme : Scheme
  pub client_address : SocketAddr
  pub backend_uri : Uri
  pub client : Request Headers Body → Option (Response Headers Body)

module _ {Headers Value Body : Type 0} (hyper : Http Headers Value Body) where
  -- A value that is no visible ASCII counts as empty.
  unfoldable pub forwarded_for_header : Option Value → Text → Text
  forwarded_for_header none client_ip = client_ip
  forwarded_for_header (some existing) client_ip =
      elim (hyper.to_str existing) [ none ↦ [] | some t ↦ t ] ++ (codes ", " ++ client_ip)

  -- The names and texts that the chain of `header` calls adds, behind the request's own.
  unfoldable pub added_headers :
      Option Text → Request Headers Body → Context Headers Body → List (HeaderName × Text)
  unfolding forwarded_for_header Scheme.to_string
  added_headers hostname request context =
      (
        "x-forwarded-for",
        forwarded_for_header (hyper.get "x-forwarded-for" request.headers)
            context.client_address.ip,
      )
      ∷ ("x-real-ip", context.client_address.ip)
      ∷ ("x-forwarded-port", elim context.client_scheme [ http ↦ codes "80" | https ↦ codes "443" ])
      ∷ ("x-forwarded-proto", Scheme.to_string context.client_scheme)
      ∷ elim hostname [ none ↦ [] | some name ↦ ("x-forwarded-server", name) ∷ [] ]

  -- `Builder::header` with a text, once for each pair: a text that is no header value makes the
  -- builder fail.
  unfoldable pub append_texts : List (HeaderName × Text) → Headers → Option Headers
  append_texts [] headers = some headers
  append_texts ((name, text) ∷ l) headers =
      and_then (hyper.from_str text) λ value. append_texts l (hyper.append name value headers)

  -- `fold` of the builder over the request's headers.
  unfoldable pub append_values : List (HeaderName × Value) → Headers → Headers
  append_values [] headers = headers
  append_values ((name, value) ∷ l) headers = append_values l (hyper.append name value headers)

  -- `hostname` is what `gethostname().into_string()` gives.
  unfoldable pub backend_request :
      Option Text → Request Headers Body → Context Headers Body → Outcome (Request Headers Body)
  unfolding added_headers append_texts append_values
  backend_request hostname request context = do
    let copied = append_values (hyper.iter request.headers) hyper.empty
    headers ← unwrap (append_texts (added_headers hostname request context) copied)
    done (record {
      method = request.method;
      uri = context.backend_uri;
      headers = headers;
      body = request.body;
    })
