-- ===== src/Middleware/Tests.antt =====
-- Runs of the theorems on src/middleware/.
use text.Mathlib.Text.{◌==◌ as str_eq}
use another_rust_load_balanc.Prelude.{
  ℕ, ◌≡◌, ◌⊎◌, ◌↔◌, refl, Text, codes, some, none, List, [], ◌∷◌, ◌++◌, All, map, split, err, done,
  ◌==◌, leb, if◌then◌else◌, arith,
}
use another_rust_load_balanc.Prelude.Int.{pos}
use another_rust_load_balanc.Http.{Request, Response, HeaderName, values_of}
use another_rust_load_balanc.Http.Assoc.{Entries, assoc_http, assoc_laws}
use another_rust_load_balanc.Scheme.{http}
use another_rust_load_balanc.ErrorResponse.{request_entity_to_large}
use another_rust_load_balanc.Samples.{
  one, client, backend, request, response, maps, maps_laws, ldap, directory, authorities, outside,
  ware_context,
}
use another_rust_load_balanc.Middleware.{added_headers, backend_request}
use another_rust_load_balanc.Middleware.Forwarding.{AreValues, backend_request-headers}
use another_rust_load_balanc.Middleware.RateLimiter as Rate
use another_rust_load_balanc.Middleware.RateLimiter.{
  RateLimiter, Seen, register_request, addr_eq, lookup,
}
use another_rust_load_balanc.Middleware.RateLimiter.Window.{
  live, counted, seen, IsOrdered, IsBounded, register_request-window,
}
use another_rust_load_balanc.Middleware.Authentication.{user_authentication}
use another_rust_load_balanc.Middleware.Authentication.Access.{Grants, user_authentication_iff}
use another_rust_load_balanc.Middleware.Compression as Compress
use another_rust_load_balanc.Middleware.Compression.{
  Encoding, gzip, trim, get_preferred_encoding, encode_response, parse_qvalue, padded,
}
use another_rust_load_balanc.Middleware.Compression.Offers.{Offers}
use another_rust_load_balanc.Middleware.Compression.Preferred.{
  Preferred, get_preferred_encoding-FirstBest,
}
use another_rust_load_balanc.Middleware.Compression.Encoded.{encode_response-headers}
use another_rust_load_balanc.Middleware.HttpsRedirector as Https
use another_rust_load_balanc.Middleware.HttpsRedirector.Redirects.{Answer, modify_request-Answer}
use another_rust_load_balanc.Middleware.MaxBodySize as BodySize
use another_rust_load_balanc.Middleware.MaxBodySize.Limits.{modify_request-written}
use another_rust_load_balanc.Middleware.Chain.{
  MiddlewareChain, empty, entry, https_redirector, compression, forward_request,
}
use another_rust_load_balanc.Middleware.Chain.Blocked.{here, there, forward_request-Blocked}

abbrev chain : MiddlewareChain Rate.Entries
chain = entry compression (entry https_redirector empty)

forward_request-Blocked_example :
    forward_request assoc_http outside chain request ware_context
    ≡ forward_request assoc_http outside chain request
        (record ware_context { client = λ r. some response })
forward_request-Blocked_example =
    forward_request-Blocked assoc_http outside request ware_context (λ r. some response)
      (there compression (entry https_redirector empty) (here https_redirector empty refl))

abbrev limiter : RateLimiter Rate.Entries
limiter = record {
  connections =
      (record client { port = 1 }, record { count = 7; time = 0 })
      ∷ (client, record { count = 2; time = 5_000_000_000 })
      ∷ [];
  limit = 3;
  window_sec = 4;
}

abbrev new_count : ℕ
new_count = counted (live 4 6_000_000_000 (seen maps maps_laws client limiter))

bounded : IsBounded (live 4 6_000_000_000 (seen maps maps_laws client limiter))
unfolding lookup addr_eq ◌==◌
bounded = omega arith

register_request-window_example :
    ((register_request maps 6_000_000_000 client limiter).0 ≡ leb new_count 3)
    × (seen maps maps_laws
          (record client { port = 1 })
          (register_request maps 6_000_000_000 client limiter).1
        ≡ (if addr_eq client (record client { port = 1 })
            then some (record { count = new_count; time = 6_000_000_000 })
            else live 4 6_000_000_000 (seen maps maps_laws (record client { port = 1 }) limiter)))
    × IsOrdered maps maps_laws 6_000_000_000 (register_request maps 6_000_000_000 client limiter).1
register_request-window_example =
    register_request-window maps maps_laws 6_000_000_000 client limiter
      ((((omega arith), tt), (tt, tt)), (omega arith, (omega arith, tt)))
      (record client { port = 1 }) bounded

user_authentication_iff_example :
    (user_authentication assoc_http ldap directory request.headers ≡ some tt)
    ↔ Grants assoc_http ldap directory request.headers
user_authentication_iff_example = user_authentication_iff assoc_http ldap directory request.headers

-- Two encodings, of which the second weighs more.
abbrev weighed : Text
weighed = codes "gzip;q=0.5, br;q=0.75,deflate;q=0"

abbrev accepting : Entries
accepting = (Compress.accept_encoding, weighed) ∷ []

get_preferred_encoding-FirstBest_example :
    ((get_preferred_encoding assoc_http accepting ≡ none)
      × All (λ part. (e : Encoding) (q : ℕ) → Offers part e q → ⊥) (map trim (split 44 weighed)))
    ⊎ ((e : Encoding) × (q : ℕ) × (get_preferred_encoding assoc_http accepting ≡ some e)
        × Preferred (map trim (split 44 weighed)) e q)
get_preferred_encoding-FirstBest_example =
    get_preferred_encoding-FirstBest assoc_http accepting {value = weighed} {text = weighed} refl
      refl

encode_response-headers_example :
    ((encode_response assoc_http outside.encode outside.from_static (some gzip) response).status
      ≡ 404)
    × ((encode_response assoc_http outside.encode outside.from_static (some gzip) response).body
        ≡ codes "abc")
    × (assoc_http.get_all "x"
          (encode_response assoc_http outside.encode outside.from_static
            (some gzip)
            response).headers
        ≡ (if str_eq Compress.content_length "x"
            then []
            else (if str_eq Compress.content_encoding "x"
                then Compress.to_str gzip ∷ []
                else assoc_http.get_all "x" response.headers)))
encode_response-headers_example =
    encode_response-headers assoc_http assoc_laws outside.encode outside.from_static gzip response
      "x" refl

modify_request-Answer_example :
    (r : Response Entries Text) × (Https.modify_request assoc_http authorities http request ≡ err r)
    × Answer assoc_http assoc_laws authorities request r
modify_request-Answer_example = modify_request-Answer assoc_http assoc_laws authorities request

abbrev sized : Request Entries Text
sized = record request { headers = ("content-length", codes "42") ∷ [] }

modify_request-written_example :
    BodySize.modify_request assoc_http (record { limit = pos 41 }) sized
    ≡ err (request_entity_to_large assoc_http)
modify_request-written_example =
    modify_request-written assoc_http (record { limit = pos 41 }) sized 4 (2 ∷ [])
      {value = codes "42"} (omega arith, (omega arith, tt)) refl refl

abbrev sent : Request Entries Text
sent = record {
  method = request.method;
  uri = backend one;
  headers =
      request.headers
      ++ ("x-forwarded-for", codes "9")
        ∷ ("x-real-ip", codes "9")
        ∷ ("x-forwarded-port", codes "80")
        ∷ ("x-forwarded-proto", codes "http")
        ∷ [];
  body = [];
}

is_sent : backend_request assoc_http none request ware_context ≡ done sent
unfolding backend_request
is_sent = refl

backend_request-headers_example :
    (sent.method ≡ request.method)
    × (sent.uri ≡ backend one)
    × (sent.body ≡ request.body)
    × (vs : List (HeaderName × Text)) × AreValues assoc_http assoc_laws
        (added_headers assoc_http none request ware_context)
        vs
    × ((j : HeaderName)
        → assoc_http.get_all j sent.headers
          ≡ assoc_http.get_all j request.headers ++ values_of j vs)
backend_request-headers_example =
    backend_request-headers assoc_http assoc_laws none request ware_context {sent = sent} is_sent
