-- ===== src/LoadBalancing.antt =====
-- src/load_balancing/mod.rs: the context of a selection and the forwarder that it returns.
-- The strategies are the modules below; `Dispatch` is the trait object that calls them.
pub mod RoundRobin
pub mod IpHash
pub mod Random
pub mod LeastConnection
pub mod StickyCookie
pub mod Dispatch
mod Tests
use another_rust_load_balanc.Prelude.{
  ℕ, Text, codes, Option, none, some, List, Outcome, done, panic, unwrap,
}
use another_rust_load_balanc.Prelude.Panics.{◌>>=◌}
use another_rust_load_balanc.Http.{Uri, Request, Response, SocketAddr, Http}

pub record Context : Type 0 where
  pub client_address : SocketAddr
  pub backend_addresses : List Text

-- The mapper may panic: a cookie's text need not be a header value.
pub record RequestForwarder (Headers Body : Type 0) : Type 0 where
  pub backend_address : Text
  pub response_mapper : Response Headers Body → Outcome (Response Headers Body)

module _ {Headers Body : Type 0} where
  unfoldable pub new_with_response_mapper :
      Text
      → (Response Headers Body → Outcome (Response Headers Body))
      → RequestForwarder Headers Body
  new_with_response_mapper address response_mapper = record {
    backend_address = address;
    response_mapper = response_mapper;
  }

  -- `RequestForwarder::new`: the identity maps the response.
  unfoldable pub new_forwarder : Text → RequestForwarder Headers Body
  unfolding new_with_response_mapper
  new_forwarder address = new_with_response_mapper address (λ response. done response)

  unfoldable pub map_response :
      RequestForwarder Headers Body
      → (Response Headers Body → Outcome (Response Headers Body))
      → RequestForwarder Headers Body
  map_response self response_mapper = record {
    backend_address = self.backend_address;
    response_mapper = λ response. do
      mapped ← self.response_mapper response
      response_mapper mapped;
  }

  -- `Middleware::modify_response` of a forwarder.
  unfoldable pub modify_response :
      RequestForwarder Headers Body → Response Headers Body → Outcome (Response Headers Body)
  modify_response self response = self.response_mapper response

-- `RequestForwarder::backend_uri`; a request without a path or an address that is no authority
-- makes an `unwrap` panic.
unfoldable pub backend_uri :
    {Headers Value Body : Type 0}
    → Http Headers Value Body
    → RequestForwarder Headers Body
    → Request Headers Body
    → Outcome Uri
backend_uri http self request = do
  path ← unwrap request.uri.path_and_query
  unwrap (http.build_uri (codes "http") self.backend_address path)
