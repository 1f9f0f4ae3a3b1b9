-- ===== src/Middleware/Authentication/Access.antt =====
-- Whom src/middleware/authentication.rs lets pass.
use another_rust_load_balanc.Prelude.{
  Text, codes, Bool, true, false, Option, none, some, List, [], ◌∷◌, ◌++◌, ◌≡◌, ◌↔◌, refl, ap, ◌∙◌,
  ok, All, if◌then◌else◌,
}
use another_rust_load_balanc.Prelude.Results.{to_option, >>=-eq-ok, to_option-eq-some}
use another_rust_load_balanc.Prelude.Options.{and_then-eq-some}
use another_rust_load_balanc.Http.{Http}
use another_rust_load_balanc.Middleware.Authentication.{
  Authentication, Credentials, Ldap, Scope, subtree, one_level, authorization, bind_any,
  check_user_credentials, user_authentication,
}

abbrev pub name_filter : Authentication → Text → Text
name_filter self user = codes "(" ++ (self.rdn_identifier ++ (codes "=" ++ (user ++ codes ")")))

module _ {Connection : Type 0} (ldap : Ldap Connection) where
  -- The first name at which the password binds, behind names at which it does not.
  pub data Binds (conn : Connection) (password : Text) (names : List Text) : Type 0 where
    binds :
        (before after : List Text) (dn : Text)
        → names ≡ before ++ dn ∷ after
        → All (λ d. ldap.simple_bind conn d password ≡ ok false) before
        → ldap.simple_bind conn dn password ≡ ok true
        → Binds conn password names

  bind_any-Binds :
      (conn : Connection) (password : Text) (names : List Text)
      → bind_any ldap conn password names ≡ ok true
      → Binds conn password names
  unfolding bind_any
  bind_any-Binds conn password [] h = cc
  bind_any-Binds conn password (dn ∷ dns) h =
      let (bound, answer, h1) = >>=-eq-ok (ldap.simple_bind conn dn password) _ h in
      first bound answer h1 (bind_any-Binds conn password dns)
    where
      first :
          (bound : Bool)
          → ldap.simple_bind conn dn password ≡ ok bound
          → (if bound then ok true else bind_any ldap conn password dns) ≡ ok true
          → (bind_any ldap conn password dns ≡ ok true → Binds conn password dns)
          → Binds conn password (dn ∷ dns)
      first true answer h1 ih = binds [] dns dn refl tt answer
      first false answer h1 ih = elim (ih h1) [
        | binds before after d at a bound ↦
            binds (dn ∷ before) after d (ap (λ l. dn ∷ l) at) (answer, a) bound
      ]

  Binds-bind_any :
      (conn : Connection) (password : Text) (before after : List Text) (dn : Text)
      → All (λ d. ldap.simple_bind conn d password ≡ ok false) before
      → ldap.simple_bind conn dn password ≡ ok true
      → bind_any ldap conn password (before ++ dn ∷ after) ≡ ok true
  unfolding bind_any
  Binds-bind_any conn password [] after dn a bound = rw bound refl
  Binds-bind_any conn password (d ∷ before) after dn a bound =
      rw a.0 (Binds-bind_any conn password before after dn a.1 bound)

module _ {Headers Value Body Connection : Type 0} (http : Http Headers Value Body)
    (ldap : Ldap Connection) (self : Authentication) (headers : Headers) where
  abbrev scope : Scope
  scope = if self.recursive then subtree else one_level

  -- The header authorization decodes to credentials, the directory's server answers, and the
  -- password binds at one of the names that the search for the user finds.
  pub data Grants : Type 0 where
    grants :
        (value : Value) (text : Text) (credentials : Credentials) (conn : Connection)
        (names : List Text)
        → http.get authorization headers ≡ some value
        → http.to_str value ≡ some text
        → ldap.from_header text ≡ some credentials
        → ldap.connect self.ldap_address ≡ ok conn
        → ldap.search conn self.user_directory scope (name_filter self credentials.user_id)
          ≡ ok names
        → Binds ldap conn credentials.password names
        → Grants

  abbrev passed : Bool → Option {0} Unit
  passed b = if b then some tt else none

  is_true : (b : Bool) → passed b ≡ some tt → b ≡ true
  is_true true h = refl
  is_true false h = cc

  checked :
      (user password : Text)
      → check_user_credentials ldap self user password ≡ ok true
      → (conn : Connection) × (names : List Text) × (ldap.connect self.ldap_address ≡ ok conn)
        × (ldap.search conn self.user_directory scope (name_filter self user) ≡ ok names)
        × Binds ldap conn password names
  unfolding check_user_credentials
  checked user password h =
      let (conn, connected, h1) = >>=-eq-ok (ldap.connect self.ldap_address) _ h in
      let (names, found, h2) =
        >>=-eq-ok (ldap.search conn self.user_directory scope (name_filter self user)) _ h1 in
      (conn, names, connected, found, bind_any-Binds ldap conn password names h2)

  granted : user_authentication http ldap self headers ≡ some tt → Grants
  unfolding user_authentication
  granted h =
      let (value, sent, h1) = and_then-eq-some (http.get authorization headers) _ h in
      let (text, read, h2) = and_then-eq-some (http.to_str value) _ h1 in
      let (credentials, decoded, h3) = and_then-eq-some (ldap.from_header text) _ h2 in
      let (_, is_ok, h4) =
        and_then-eq-some
          (to_option (check_user_credentials ldap self credentials.user_id credentials.password)) _
          h3 in
      let (conn, names, connected, found, binding) =
        checked credentials.user_id credentials.password
          (to_option-eq-some _ (is_ok ∙ ap some (is_true _ h4))) in
      grants value text credentials conn names sent read decoded connected found binding

  granting : Grants → user_authentication http ldap self headers ≡ some tt
  unfolding user_authentication check_user_credentials
  granting
        (grants value text credentials conn names sent read decoded connected found
          (binds before after dn at a bound)) =
      rw
        (
          sent,
          user_authentication,
          read,
          decoded,
          check_user_credentials,
          connected,
          found,
          at,
          Binds-bind_any ldap conn credentials.password before after dn a bound,
        )
        refl

  -- A request is authenticated exactly if its header authorization decodes to credentials, the
  -- LDAP server answers a search for the user, and the password binds at one of the names found
  -- while at each name before it the bind was answered with a refusal.
  pub user_authentication_iff : (user_authentication http ldap self headers ≡ some tt) ↔ Grants
  user_authentication_iff = (granted, granting)
