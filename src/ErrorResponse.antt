-- ===== src/ErrorResponse.antt =====
-- src/error_response.rs: the responses that the load balancer builds itself. Logging is left out.
use another_rust_load_balanc.Prelude.{ℕ, Text, codes}
use another_rust_load_balanc.Http.{Http, Response}

module _ {Headers Value Body : Type 0} (http : Http Headers Value Body) where
  -- `Response::builder().status(…).body(…)`, which has no header.
  unfoldable pub plain : ℕ → Body → Response Headers Body
  plain status body = record { status = status; headers = http.empty; body = body }

  unfoldable pub not_found : Response Headers Body
  unfolding plain
  not_found = plain 404 (http.body_from (codes "404 - page not found"))

  unfoldable pub bad_gateway : Response Headers Body
  unfolding plain
  bad_gateway = plain 502 http.empty_body

  -- `handle_bad_gateway` drops the error, which it logs.
  unfoldable pub handle_bad_gateway {ℓ} : {Error : Type ℓ} → Error → Response Headers Body
  unfolding bad_gateway
  handle_bad_gateway error = bad_gateway

  unfoldable pub bad_request : Text → Response Headers Body
  unfolding plain
  bad_request message = plain 400 (http.body_from message)

  unfoldable pub internal_server_error : Response Headers Body
  unfolding plain
  internal_server_error = plain 500 http.empty_body

  unfoldable pub handle_internal_server_error {ℓ} : {Error : Type ℓ} → Error → Response Headers Body
  unfolding internal_server_error
  handle_internal_server_error error = internal_server_error

  unfoldable pub request_entity_to_large : Response Headers Body
  unfolding plain
  request_entity_to_large = plain 413 http.empty_body

  unfoldable pub too_many_requests : Response Headers Body
  unfolding plain
  too_many_requests = plain 429 (http.body_from (codes "429 - Too Many Requests"))
