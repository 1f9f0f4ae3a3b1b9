-- ===== src/Middleware/HttpsRedirector.antt =====
-- src/middleware/https_redirector.rs. What a request or a URI is turned to is the crates' own.
pub mod Redirects
use another_rust_load_balanc.Prelude.{Text, codes, Option, none, some, Result, ok, err}
use another_rust_load_balanc.Prelude.Results.{◌>>=◌, ok_or}
use another_rust_load_balanc.Prelude.Options.{unwrap_or}
use another_rust_load_balanc.Http.{HeaderName, Http, Request, Response}
use another_rust_load_balanc.ErrorResponse.{
  bad_request, internal_server_error, handle_internal_server_error,
}
use another_rust_load_balanc.Scheme.{Scheme, http, https}

-- `Authority::try_from`, and the text of the error of `HeaderValue::to_str`.
pub record Authorities : Type 0 where
  pub try_from : Text → Option Text
  pub to_str_error : Text

abbrev pub host_header : HeaderName
host_header = "host"

abbrev pub location_header : HeaderName
location_header = "location"

module _ {Headers Value Body : Type 0} (hyper : Http Headers Value Body)
    (authorities : Authorities) where
  unfoldable pub parse_host_header : Request Headers Body → Result Text (Response Headers Body)
  parse_host_header request = do
    value ←
        ok_or (hyper.get host_header request.headers)
          (bad_request hyper (codes "missing host header"))
    host ← ok_or (hyper.to_str value) (bad_request hyper authorities.to_str_error)
    ok_or (authorities.try_from host) (bad_request hyper (codes "invalid host header"))

  -- The part of `modify_request` for plain HTTP: its `ok` is the redirection, its `err` the early
  -- return of a `?`. `modify_request` returns both as `Err`.
  unfoldable pub redirect :
      Request Headers Body → Result (Response Headers Body) (Response Headers Body)
  unfolding parse_host_header
  redirect request = do
    host_authority ← parse_host_header request
    let authority = unwrap_or request.uri.authority host_authority
    path_and_query ← ok_or request.uri.path_and_query (internal_server_error hyper)
    https_uri ←
        ok_or (hyper.build_uri (codes "https") authority path_and_query)
          (handle_internal_server_error hyper (codes "invalid"))
    location ←
        ok_or (hyper.from_str (hyper.uri_to_string https_uri))
          (handle_internal_server_error hyper (codes "invalid"))
    ok (record {
      status = 301;
      headers = hyper.append location_header location hyper.empty;
      body = hyper.empty_body;
    })

  unfoldable pub modify_request :
      Scheme → Request Headers Body → Result (Request Headers Body) (Response Headers Body)
  unfolding redirect
  modify_request http request = redirect request >>= λ response. err response
  modify_request https request = ok request
