-- ===== src/Http.antt =====
-- The messages of the hyper and http crates, as the program reads and builds them
-- (Cargo.toml: hyper 0.14). A request, a response and a URI are records with one field for each
-- accessor that the program calls. Header maps, header values and bodies stay the crates' own:
-- their types and operations are the record `Http`, and what is documented of them `HttpLaws`.
pub mod Assoc
pub mod Laws
use text.Mathlib.Text.{◌==◌ as str_eq}
use another_rust_load_balanc.Prelude.{
  ℕ, String, Text, Bool, Option, none, some, List, [], ◌∷◌, ◌++◌, ◌≡◌, is_some, true, if◌then◌else◌,
}

pub record Uri : Type 0 where
  pub authority : Option Text
  pub path : Text
  pub query : Option Text
  pub path_and_query : Option Text

pub record Request (Headers Body : Type 0) : Type 0 where
  pub method : Text
  pub uri : Uri
  pub headers : Headers
  pub body : Body

pub record Response (Headers Body : Type 0) : Type 0 where
  pub status : ℕ
  pub headers : Headers
  pub body : Body

-- A socket address: the printed IP address and the port.
pub record SocketAddr : Type 0 where
  pub ip : Text
  pub port : ℕ

-- Header names are written in lower case, as the http crate keeps them.
abbrev pub HeaderName : Type 0
HeaderName = String

-- The first value of a name, as `HeaderMap::get` returns it.
abbrev pub head? {ℓ} : {A : Type ℓ} → List A → Option A
head? [] = none
head? (a ∷ _) = some a

abbrev pub values_of : {Value : Type 0} → HeaderName → List (HeaderName × Value) → List Value
values_of k [] = []
values_of k ((j, v) ∷ l) = if str_eq j k then v ∷ values_of k l else values_of k l

-- The operations of the crates that the program calls.
pub record Http (Headers Value Body : Type 0) : Type 0 where
  -- `HeaderMap`
  pub empty : Headers
  pub get : HeaderName → Headers → Option Value
  pub get_all : HeaderName → Headers → List Value
  pub contains_key : HeaderName → Headers → Bool
  pub insert : HeaderName → Value → Headers → Headers
  pub append : HeaderName → Value → Headers → Headers
  pub remove : HeaderName → Headers → Headers
  pub iter : Headers → List (HeaderName × Value)
  -- `HeaderValue::to_str`, `HeaderValue::from_str` and the comparison with a `String`
  pub to_str : Value → Option Text
  pub from_str : Text → Option Value
  pub eq_str : Value → Text → Bool
  -- `Body::empty` and `Body::from`
  pub empty_body : Body
  pub body_from : Text → Body
  -- `Uri::builder` with a scheme, an authority and a path, and `Uri::to_string`
  pub build_uri : Text → Text → Text → Option Uri
  pub uri_to_string : Uri → Text

-- What the documentation of `HeaderMap` says: a multimap from names to values.
pub record HttpLaws {Headers Value Body : Type 0} (http : Http Headers Value Body) : Type 0 where
  pub get_first : (k : HeaderName) (m : Headers) → http.get k m ≡ head? (http.get_all k m)
  pub contains_get : (k : HeaderName) (m : Headers) → http.contains_key k m ≡ is_some (http.get k m)
  pub get_all_empty : (k : HeaderName) → http.get_all k http.empty ≡ []
  pub get_all_insert :
      (k j : HeaderName) (v : Value) (m : Headers)
      → http.get_all j (http.insert k v m) ≡ (if str_eq k j then v ∷ [] else http.get_all j m)
  pub get_all_append :
      (k j : HeaderName) (v : Value) (m : Headers)
      → http.get_all j (http.append k v m)
        ≡ (if str_eq k j then http.get_all j m ++ v ∷ [] else http.get_all j m)
  pub get_all_remove :
      (k j : HeaderName) (m : Headers)
      → http.get_all j (http.remove k m) ≡ (if str_eq k j then [] else http.get_all j m)
  pub get_all_iter : (k : HeaderName) (m : Headers) → http.get_all k m ≡ values_of k (http.iter m)
  pub eq_str_to_str : (v : Value) (t : Text) → http.to_str v ≡ some t → http.eq_str v t ≡ true
