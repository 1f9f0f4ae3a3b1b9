-- ===== src/LoadBalancing/StickyCookie/Affinity.antt =====
-- What the cookie of src/load_balancing/sticky_cookie.rs does for the backend of a client.
use text.Mathlib.Text.{◌==◌ as str_eq}
use another_rust_load_balanc.Prelude.{
  Text, ◌≡◌, ◌≢◌, refl, none, some, List, [], ◌∷◌, ◌++◌, Outcome, done, find, find_map, split, In,
  ◌==◌, eq_iff, eq_refl, arith, if◌then◌else◌,
}
use another_rust_load_balanc.Http.{HeaderName, Http, HttpLaws, Request, Response}
use another_rust_load_balanc.Http.Laws.{get_all-append_or_insert}
use another_rust_load_balanc.LoadBalancing.{Context, RequestForwarder, new_forwarder, map_response}
use another_rust_load_balanc.LoadBalancing.StickyCookie.{
  Cookie, Cookies, StickyCookie, cookie_header, set_cookie_header, named_cookie,
  try_parse_sticky_cookie, modify_response, named_backend, select_backend,
}

-- The first part of a `Cookie` header that is a cookie of this name has the value `value`.
pub data FirstCookie (cookies : Cookies) (name value : Text) : List Text → Type 0 where
  found :
      {part : Text} {parts : List Text} (cookie : Cookie)
      → cookies.parse part ≡ some cookie
      → cookie.name ≡ name
      → cookie.value ≡ value
      → FirstCookie cookies name value (part ∷ parts)
  malformed :
      {part : Text} {parts : List Text}
      → cookies.parse part ≡ none
      → FirstCookie cookies name value parts
      → FirstCookie cookies name value (part ∷ parts)
  other :
      {part : Text} {parts : List Text} (cookie : Cookie)
      → cookies.parse part ≡ some cookie
      → cookie.name ≢ name
      → FirstCookie cookies name value parts
      → FirstCookie cookies name value (part ∷ parts)

find_map-FirstCookie :
    (cookies : Cookies) (self : StickyCookie) {value : Text} {parts : List Text}
    → FirstCookie cookies self.cookie_name value parts
    → (cookie : Cookie) × (find_map (named_cookie cookies self) parts ≡ some cookie)
      × (cookie.value ≡ value)
unfolding named_cookie
find_map-FirstCookie cookies self (found cookie parsed named valued) =
    (cookie, ground (arith, eq_refl self.cookie_name), valued)
find_map-FirstCookie cookies self (malformed failed later) =
    let (cookie, is, valued) = find_map-FirstCookie cookies self later in
    (cookie, ground (arith, is), valued)
find_map-FirstCookie cookies self (other first parsed ne later) =
    let (cookie, is, valued) = find_map-FirstCookie cookies self later in
    (cookie, ground (arith, is, eq_iff first.name self.cookie_name), valued)

find_self :
    (addresses : List Text) (a : Text) → In a addresses → find (λ b. b == a) addresses ≡ some a
find_self [] a m = elim m [ ]
find_self (b ∷ addresses) a m = ground (arith, find_self addresses a, eq_iff b a)

module _ {Headers Value Body State : Type 0} (http : Http Headers Value Body) (cookies : Cookies)
    (self : StickyCookie) (inner : State → Outcome (State × RequestForwarder Headers Body))
    (state : State) where
  -- A request whose `Cookie` header names, in its first cookie of the strategy's name, an address of
  -- the context is sent there: the inner strategy is not asked and the response is not changed.
  pub select_backend_sticky :
      (request : Request Headers Body) (context : Context) (header : Value) (text address : Text)
      → http.get cookie_header request.headers ≡ some header
      → http.to_str header ≡ some text
      → FirstCookie cookies self.cookie_name address (split b';' text)
      → In address context.backend_addresses
      → select_backend http cookies self inner state request context
        ≡ done (state, new_forwarder address)
  unfolding select_backend named_backend try_parse_sticky_cookie
  select_backend_sticky request context header text address sent readable first listed =
      let (cookie, is, valued) = find_map-FirstCookie cookies self first in
      let parsed : try_parse_sticky_cookie http cookies self request ≡ some cookie =
        ground (arith, is) in
      let named : named_backend http cookies self request context ≡ some address =
        rw (parsed, named_backend, valued) (find_self context.backend_addresses address listed) in
      rw (named, select_backend)

  -- For any other request, where the inner strategy returns a forwarder that maps a response to
  -- `mapped`, and the text of the cookie for that forwarder's address is a header value: the request
  -- goes where the inner strategy sends it, with the inner strategy's new state, and the response is
  -- mapped to `mapped` with that `Set-Cookie` value added behind those that are there, and with the
  -- status, the body and every other header kept.
  pub select_backend_sets :
      HttpLaws http
      → (request : Request Headers Body) (context : Context) (next : State)
        (backend : RequestForwarder Headers Body) (response mapped : Response Headers Body)
        (value : Value)
      → named_backend http cookies self request context ≡ none
      → inner state ≡ done (next, backend)
      → backend.response_mapper response ≡ done mapped
      → http.from_str (
          cookies.build self.cookie_name backend.backend_address self.http_only self.secure
            self.same_site)
        ≡ some value
      → (forwarder : RequestForwarder Headers Body) × (changed : Response Headers Body)
        × (select_backend http cookies self inner state request context ≡ done (next, forwarder))
        × (forwarder.backend_address ≡ backend.backend_address)
        × (forwarder.response_mapper response ≡ done changed)
        × (changed.status ≡ mapped.status)
        × (changed.body ≡ mapped.body)
        × ((k : HeaderName)
            → http.get_all k changed.headers ≡ (
                if str_eq set_cookie_header k
                then http.get_all k mapped.headers ++ value ∷ []
                else http.get_all k mapped.headers))
  unfolding select_backend map_response modify_response
  select_backend_sets laws request context next backend response mapped value unnamed asked maps
        text =
      (
        map_response backend (λ r. modify_response http cookies self r backend.backend_address),
        record mapped {
          headers =
              if http.contains_key set_cookie_header mapped.headers
              then http.append set_cookie_header value mapped.headers
              else http.insert set_cookie_header value mapped.headers;
        },
        rw (unnamed, asked, select_backend),
        refl,
        rw (maps, text, map_response, modify_response),
        refl,
        refl,
        λ k. get_all-append_or_insert http laws set_cookie_header mapped.headers k value,
      )
