-- ===== src/Middleware/MaxBodySize.antt =====
-- src/middleware/maxbodysize.rs.
pub mod Limits
use another_rust_load_balanc.Prelude.{Option, none, some, Result, ok, err, if◌then◌else◌}
use another_rust_load_balanc.Prelude.Int.{ℤ, ltb_ℤ}
use another_rust_load_balanc.Prelude.Numbers.{parse_i64}
use another_rust_load_balanc.Prelude.Options.{◌>>=◌}
use another_rust_load_balanc.Http.{HeaderName, Http, Request, Response}
use another_rust_load_balanc.ErrorResponse.{request_entity_to_large}

pub record MaxBodySize : Type 0 where
  pub limit : ℤ

abbrev pub content_length : HeaderName
content_length = "content-length"

module _ {Headers Value Body : Type 0} (http : Http Headers Value Body) where
  unfoldable pub get_content_length : Headers → Option ℤ
  get_content_length headers = do
    value ← http.get content_length headers
    text ← http.to_str value
    parse_i64 text

  unfoldable pub modify_request :
      MaxBodySize → Request Headers Body → Result (Request Headers Body) (Response Headers Body)
  unfolding get_content_length
  modify_request self request = elim (get_content_length request.headers) [
    | none ↦ ok request
    | some length ↦
        if ltb_ℤ self.limit length then err (request_entity_to_large http) else ok request
  ]
