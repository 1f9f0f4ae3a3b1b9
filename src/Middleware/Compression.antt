-- ===== src/Middleware/Compression.antt =====
-- src/middleware/compression.rs: the choice of an encoding by the header accept-encoding, and the
-- compressed response. The encoders are a parameter.
pub mod Qvalues
pub mod Offers
pub mod Preferred
pub mod Encoded
use another_rust_load_balanc.Prelude.{
  ℕ, zero, suc, Text, codes, Bool, true, false, not, ◌&&◌, ◌||◌, Option, none, some, List, [], ◌∷◌,
  ◌++◌, map, ◌==◌, length, filter_map, split, strip_prefix, rev, eqb, ltb, leb, if◌then◌else◌,
}
use another_rust_load_balanc.Prelude.Numbers.{parse_u32}
use another_rust_load_balanc.Prelude.Options.{◌>>=◌, unwrap_or}
use another_rust_load_balanc.Http.{HeaderName, Http, Response}
use another_rust_load_balanc.Utils.{split_once}

pub data Encoding : Type 0 where
  brotli deflate gzip : Encoding

unfoldable pub to_str : Encoding → Text
to_str brotli = codes "br"
to_str deflate = codes "deflate"
to_str gzip = codes "gzip"

unfoldable pub from_str : Text → Option Encoding
from_str s =
    if s == codes "br"
    then some brotli
    else (if s == codes "deflate"
        then some deflate
        else (if s == codes "gzip" then some gzip else none))

-- `char::is_whitespace`.
abbrev pub is_whitespace : ℕ → Bool
is_whitespace c =
    (leb 9 c && leb c 13)
    || eqb c 32
    || eqb c 133
    || eqb c 160
    || eqb c 5760
    || (leb 8192 c && leb c 8202)
    || eqb c 8232
    || eqb c 8233
    || eqb c 8239
    || eqb c 8287
    || eqb c 12288

unfoldable pub trim_start : Text → Text
trim_start [] = []
trim_start (c ∷ s) = let rest = trim_start s in if is_whitespace c then rest else c ∷ s

-- A text without the white space at its end.
unfoldable pub trim_end : Text → Text
trim_end [] = []
trim_end (c ∷ s) = elim (trim_end s) [
  | [] ↦ if is_whitespace c then [] else c ∷ []
  | d ∷ r ↦ c ∷ d ∷ r
]

unfoldable pub trim : Text → Text
unfolding trim_start trim_end
trim s = trim_end (trim_start s)

-- `format!("{:0<3}", …)`: zeros behind the text, up to three characters.
unfoldable pub padded : ℕ → Text → Text
padded zero s = s
padded (suc n) [] = 48 ∷ padded n []
padded (suc n) (c ∷ s) = c ∷ padded n s

-- `Option::filter`.
abbrev pub filtered : {A : Type 0} → (A → Bool) → Option A → Option A
filtered p none = none
filtered p (some a) = if p a then some a else none

unfoldable pub parse_qvalue : Text → Option ℕ
unfolding padded
parse_qvalue qvalue = strip_prefix (codes "q=") qvalue >>= λ qvalue.
    if qvalue == codes "1"
    then some 1000
    else (filtered (λ digits. leb (length digits) 3) (strip_prefix (codes "0.") qvalue)
        >>= λ qvalue. filtered (λ n. not (eqb n 0)) (parse_u32 (padded 3 qvalue)))

unfoldable pub parse_encoding_and_qvalue : Text → Option (Encoding × ℕ)
unfolding from_str parse_qvalue
parse_encoding_and_qvalue encoding_and_qvalue =
    let parts = unwrap_or (split_once encoding_and_qvalue 59) (encoding_and_qvalue, codes "q=1") in
    from_str parts.0 >>= λ encoding. parse_qvalue parts.1 >>= λ qvalue. some (encoding, qvalue)

-- `Iterator::max_by_key`: the greatest so far gives way to a later one that is as great.
unfoldable pub max_from : {A : Type 0} → (A → ℕ) → A → List A → A
max_from key x [] = x
max_from key x (y ∷ ys) = max_from key (if ltb (key y) (key x) then x else y) ys

unfoldable pub max_by_key : {A : Type 0} → (A → ℕ) → List A → Option A
unfolding max_from
max_by_key key [] = none
max_by_key key (x ∷ xs) = some (max_from key x xs)

-- The encodings that a header's text offers, with their weights.
unfoldable pub candidates : Text → List (Encoding × ℕ)
unfolding trim parse_encoding_and_qvalue
candidates text = filter_map parse_encoding_and_qvalue (map trim (split 44 text))

abbrev pub accept_encoding : HeaderName
accept_encoding = "accept-encoding"

abbrev pub content_encoding : HeaderName
content_encoding = "content-encoding"

abbrev pub content_length : HeaderName
content_length = "content-length"

module _ {Headers Value Body : Type 0} (http : Http Headers Value Body) where
  unfoldable pub get_preferred_encoding : Headers → Option Encoding
  unfolding candidates rev max_by_key
  get_preferred_encoding headers = do
    value ← http.get accept_encoding headers
    text ← http.to_str value
    best ← max_by_key (λ c. c.1) (rev (candidates text))
    some best.0

module _ {Headers Value Body : Type 0} (http : Http Headers Value Body)
    (encode : Encoding → Body → Body) (from_static : Text → Value) where
  -- `encode` wraps the body's stream in an encoder; `from_static` makes a header value of a literal.
  unfoldable pub compress_response : Response Headers Body → Encoding → Response Headers Body
  unfolding to_str
  compress_response response encoding = record {
    status = response.status;
    headers =
        http.remove content_length
          (http.insert content_encoding (from_static (to_str encoding)) response.headers);
    body = encode encoding response.body;
  }

  -- What `forward_request` does to the response that the rest of the chain gave.
  unfoldable pub encode_response : Option Encoding → Response Headers Body → Response Headers Body
  unfolding compress_response
  encode_response encoding response =
      elim (filtered (λ _. not (http.contains_key content_encoding response.headers)) encoding) [
        | some encoding ↦ compress_response response encoding
        | none ↦ response
      ]
