-- ===== src/LoadBalancing/StickyCookie.antt =====
-- src/load_balancing/sticky_cookie.rs. The cookie crate is a parameter: how a cookie is parsed
-- from a part of the `Cookie` header, and the text of a cookie that is set.
pub mod Affinity
use another_rust_load_balanc.Prelude.{
  ℕ, Text, Bool, Option, none, some, List, Outcome, done, panic, unwrap, find, find_map, split,
  ◌==◌, if◌then◌else◌,
}
use another_rust_load_balanc.Prelude.Options.{and_then}
use another_rust_load_balanc.Prelude.Panics.{◌>>=◌}
use another_rust_load_balanc.Http.{HeaderName, Http, Request, Response}
use another_rust_load_balanc.LoadBalancing.{Context, RequestForwarder, new_forwarder, map_response}

pub data SameSite : Type 0 where
  strict lax unset : SameSite

-- What `Cookie::parse` gives: the name and the value.
pub record Cookie : Type 0 where
  pub name : Text
  pub value : Text

pub record Cookies : Type 0 where
  pub parse : Text → Option Cookie
  pub build : Text → Text → Bool → Bool → SameSite → Text

-- The settings of a `StickyCookie`; the strategy `inner` is a parameter of the selection.
pub record StickyCookie : Type 0 where
  pub cookie_name : Text
  pub http_only : Bool
  pub secure : Bool
  pub same_site : SameSite

abbrev pub cookie_header : HeaderName
cookie_header = "cookie"

abbrev pub set_cookie_header : HeaderName
set_cookie_header = "set-cookie"

-- The closure of `find_map`: the cookie of this name, if the part is one.
unfoldable pub named_cookie : Cookies → StickyCookie → Text → Option Cookie
named_cookie cookies self part = elim (cookies.parse part) [
  | none ↦ none
  | some cookie ↦ if cookie.name == self.cookie_name then some cookie else none
]

module _ {Headers Value Body : Type 0} (http : Http Headers Value Body) (cookies : Cookies) where
  unfoldable pub try_parse_sticky_cookie : StickyCookie → Request Headers Body → Option Cookie
  unfolding named_cookie
  try_parse_sticky_cookie self request = and_then (http.get cookie_header request.headers) λ header.
      and_then (http.to_str header) λ text. find_map (named_cookie cookies self) (split b';' text)

  -- One more `Set-Cookie` value; a text that is no header value makes the `unwrap` panic.
  unfoldable pub modify_response :
      StickyCookie → Response Headers Body → Text → Outcome (Response Headers Body)
  modify_response self response backend_address = do
    let cookie =
        cookies.build self.cookie_name backend_address self.http_only self.secure self.same_site
    cookie_val ← unwrap (http.from_str cookie)
    done (record response {
      headers =
          if http.contains_key set_cookie_header response.headers
          then http.append set_cookie_header cookie_val response.headers
          else http.insert set_cookie_header cookie_val response.headers;
    })

  -- The address of the context that the request's cookie names.
  unfoldable pub named_backend : StickyCookie → Request Headers Body → Context → Option Text
  named_backend self request context =
      and_then (try_parse_sticky_cookie self request)
        λ cookie. find (λ address. address == cookie.value) context.backend_addresses

  -- `State` is that of the inner strategy, and `inner` its selection.
  unfoldable pub select_backend :
      {State : Type 0}
      → StickyCookie
      → (State → Outcome (State × RequestForwarder Headers Body))
      → State
      → Request Headers Body
      → Context
      → Outcome (State × RequestForwarder Headers Body)
  select_backend self inner state request context = elim (named_backend self request context) [
    | some backend_address ↦ done (state, new_forwarder backend_address)
    | none ↦ do
      (next, backend) ← inner state
      done (
        next,
        map_response backend (λ response. modify_response self response backend.backend_address),
      )
  ]
