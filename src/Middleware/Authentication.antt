-- ===== src/Middleware/Authentication.antt =====
-- src/middleware/authentication.rs. The LDAP server and the decoding of credentials are
-- parameters.
pub mod Access
use another_rust_load_balanc.Prelude.{
  Text, codes, Bool, true, false, Option, none, some, List, [], ◌∷◌, ◌++◌, Result, ok, err, Outcome,
  done, if◌then◌else◌, unwrap,
}
use another_rust_load_balanc.Prelude.Results.{◌>>=◌, to_option}
use another_rust_load_balanc.Prelude.Panics as Panics
use another_rust_load_balanc.Prelude.Options
use another_rust_load_balanc.Prelude.Options.{and_then}
use another_rust_load_balanc.Http.{HeaderName, Http, Request, Response}

pub record Authentication : Type 0 where
  pub ldap_address : Text
  pub user_directory : Text
  pub rdn_identifier : Text
  pub recursive : Bool

pub record Credentials : Type 0 where
  pub user_id : Text
  pub password : Text

pub data Scope : Type 0 where
  subtree one_level : Scope

-- `from_header` of the http_auth_basic crate, and what an LDAP connection answers: the names that a
-- search finds, and whether a bind succeeds. A failed connection, search or bind is an error.
pub record Ldap (Connection : Type 0) : Type 0 where
  pub from_header : Text → Option Credentials
  pub connect : Text → Result Connection Text
  pub search : Connection → Text → Scope → Text → Result (List Text) Text
  pub simple_bind : Connection → Text → Text → Result Bool Text

abbrev pub authorization : HeaderName
authorization = "authorization"

abbrev pub www_authenticate : HeaderName
www_authenticate = "www-authenticate"

module _ {Connection : Type 0} (ldap : Ldap Connection) where
  -- The loop over the entries found: the first that binds is enough, an error ends it.
  unfoldable pub bind_any : Connection → Text → List Text → Result Bool Text
  bind_any conn password [] = ok false
  bind_any conn password (dn ∷ dns) =
      let rest = bind_any conn password dns in
      ldap.simple_bind conn dn password >>= λ bound. if bound then ok true else rest

  unfoldable pub check_user_credentials : Authentication → Text → Text → Result Bool Text
  unfolding bind_any
  check_user_credentials self user password = do
    conn ← ldap.connect self.ldap_address
    let scope = if self.recursive then subtree else one_level
    let filter = codes "(" ++ (self.rdn_identifier ++ (codes "=" ++ (user ++ codes ")")))
    result_entry ← ldap.search conn self.user_directory scope filter
    bind_any conn password result_entry

module _ {Headers Value Body : Type 0} (http : Http Headers Value Body) where
  -- The value is a literal that is a header value.
  unfoldable pub response_unauthorized : Outcome (Response Headers Body)
  response_unauthorized = unwrap (
      and_then
        (http.from_str (codes "Basic realm=\"Another Rust Load Balancer requires authentication\""))
        λ value. some (record {
          status = 401;
          headers = http.append www_authenticate value http.empty;
          body = http.empty_body;
        }))

module _ {Headers Value Body Connection : Type 0} (http : Http Headers Value Body)
    (ldap : Ldap Connection) where
  unfoldable pub user_authentication : Authentication → Headers → Option {0} Unit
  unfolding check_user_credentials
  user_authentication self headers = and_then (http.get authorization headers) λ value.
      and_then (http.to_str value) λ auth_data. and_then (ldap.from_header auth_data) λ credentials.
        and_then
          (to_option (check_user_credentials ldap self credentials.user_id credentials.password))
          λ auth_result. if auth_result then some tt else none

  unfoldable pub modify_request :
      Authentication
      → Request Headers Body
      → Outcome (Result (Request Headers Body) (Response Headers Body))
  unfolding user_authentication response_unauthorized
  modify_request self request = elim (user_authentication self request.headers) [
    | some _ ↦ done (ok request)
    | none ↦ Panics.◌>>=◌ (response_unauthorized http) λ response. done (err response)
  ]
