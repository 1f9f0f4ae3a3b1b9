-- ===== src/Middleware/Compression/Encoded.antt =====
-- The response that src/middleware/compression.rs returns.
use text.Mathlib.Text.{◌==◌ as str_eq}
use another_rust_load_balanc.Prelude.{◌≡◌, refl, Text, false, some, [], ◌∷◌, if◌then◌else◌}
use another_rust_load_balanc.Http.{HeaderName, Http, HttpLaws, Response}
use another_rust_load_balanc.Middleware.Compression.{
  Encoding, to_str, content_encoding, content_length, compress_response, encode_response,
}

module _ {Headers Value Body : Type 0} (http : Http Headers Value Body) (laws : HttpLaws http)
    (encode : Encoding → Body → Body) (from_static : Text → Value) (encoding : Encoding)
    (response : Response Headers Body) where
  -- A response without the header content-encoding, for a client that prefers an encoding: the body
  -- is encoded, the header names the encoding, content-length is gone, and the status and the other
  -- headers stay.
  pub encode_response-headers :
      (j : HeaderName)
      → http.contains_key content_encoding response.headers ≡ false
      → let after = encode_response http encode from_static (some encoding) response in
        (after.status ≡ response.status)
        × (after.body ≡ encode encoding response.body)
        × (http.get_all j after.headers ≡ (
            if str_eq content_length j
            then []
            else (if str_eq content_encoding j
                then from_static (to_str encoding) ∷ []
                else http.get_all j response.headers)))
  unfolding encode_response compress_response
  encode_response-headers j plain =
      rw (plain, encode_response)
        (
          refl,
          refl,
          rw
              (
                laws.get_all_remove content_length j
                    (http.insert content_encoding (from_static (to_str encoding)) response.headers),
                laws.get_all_insert content_encoding j (from_static (to_str encoding))
                    response.headers,
              )
              refl,
        )
