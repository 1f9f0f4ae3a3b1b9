-- ===== src/Middleware/MaxBodySize/Limits.antt =====
-- Which bodies src/middleware/maxbodysize.rs refuses.
use another_rust_load_balanc.Prelude.{
  ℕ, ◌-◌, ◌^◌, ◌≡◌, none, List, ◌∷◌, some, ok, err, leb, arith, if◌then◌else◌,
}
use another_rust_load_balanc.Prelude.Int.{pos, ltb_ℤ}
use another_rust_load_balanc.Prelude.Numbers.{Digits, number, written, parse_i64-written}
use another_rust_load_balanc.Http.{Http, Request}
use another_rust_load_balanc.ErrorResponse.{request_entity_to_large}
use another_rust_load_balanc.Middleware.MaxBodySize.{
  MaxBodySize, content_length, get_content_length, modify_request,
}

module _ {Headers Value Body : Type 0} (http : Http Headers Value Body) where
  content :
      (d : ℕ) (ds : List ℕ) {headers : Headers} {value : Value}
      → Digits (d ∷ ds)
      → http.get content_length headers ≡ some value
      → http.to_str value ≡ some (written (d ∷ ds))
      → get_content_length http headers
        ≡ (if leb (number d ds) (2 ^ 63 - 1) then some (pos (number d ds)) else none)
  unfolding get_content_length
  content d ds digits sent text =
      rw (sent, get_content_length, text) (parse_i64-written d ds digits)

  -- A request whose content length is written in decimal digits is refused with status 413 if the
  -- number exceeds the limit and fits a signed 64-bit integer, and passes otherwise.
  pub modify_request-written :
      (self : MaxBodySize) (request : Request Headers Body) (d : ℕ) (ds : List ℕ) {value : Value}
      → Digits (d ∷ ds)
      → http.get content_length request.headers ≡ some value
      → http.to_str value ≡ some (written (d ∷ ds))
      → modify_request http self request ≡ (
          if leb (number d ds) (2 ^ 63 - 1)
          then (if ltb_ℤ self.limit (pos (number d ds))
              then err (request_entity_to_large http)
              else ok request)
          else ok request)
  unfolding modify_request
  modify_request-written self request d ds digits sent text =
      ground (arith, content d ds digits sent text)
