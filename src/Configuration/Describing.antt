-- ===== src/Configuration/Describing.antt =====
-- Which middleware an entry of a table of src/configuration.rs describes, by its name and its keys.
use mathlib.Core.Path.{subst}
use another_rust_load_balanc.Prelude.{
  ℕ, Text, codes, ◌≡◌, refl, sym, ap, ◌∙◌, Option, none, some, List, [], map, filter_map, true,
  ◌==◌, eq_iff, Bool-cases, inl, inr, ok, err,
}
use another_rust_load_balanc.Prelude.Int.{ℤ, pos, negsuc}
use another_rust_load_balanc.Prelude.Options.{and_then, and_then-eq-some}
use another_rust_load_balanc.Prelude.Results.{◌>>=◌, ok_or, >>=-eq-ok}
use another_rust_load_balanc.Middleware.Authentication.{Authentication}
use another_rust_load_balanc.Middleware.RateLimiter as Rate
use another_rust_load_balanc.Middleware.RateLimiter.{LinkedHashMap}
use another_rust_load_balanc.Middleware.Chain.{
  Middleware, authentication, compression, custom_error_pages, https_redirector, max_body_size,
  rate_limiter,
}
use another_rust_load_balanc.Configuration.{
  Toml, to_u64, as_u16, field, custom_error_pages_from, rate_limiter_from, authentication_from,
  max_body_size_from, middleware_of_table, middleware_from,
}

module _ {Value Table : Type 0} (toml : Toml Value Table) where
  -- The table has the key, with a value of the type that the accessor reads.
  abbrev pub Has : {A : Type 0} → Text → (Value → Option A) → Table → A → Type 0
  Has key accessor t a = (v : Value) × (toml.get key t ≡ some v) × (accessor v ≡ some a)

  module _ {Map : Type 0} (maps : LinkedHashMap Map) where
    -- The middleware that the entry of this name and payload describes.
    pub data Describes (name : Text) (payload : Value) (m : Middleware Map) : Type 0 where
      is_compression : name ≡ codes "Compression" → m ≡ compression → Describes name payload m
      is_https_redirector :
          name ≡ codes "HttpsRedirector" → m ≡ https_redirector → Describes name payload m
      is_rate_limiter :
          (t : Table) (limit window_sec : ℕ)
          → name ≡ codes "RateLimiter"
          → toml.as_table payload ≡ some t
          → Has (codes "limit") toml.as_integer t (pos limit)
          → Has (codes "window_sec") toml.as_integer t (pos window_sec)
          → m ≡ rate_limiter (Rate.new maps limit window_sec)
          → Describes name payload m
      is_authentication :
          (t : Table) (a : Authentication)
          → name ≡ codes "Authentication"
          → toml.as_table payload ≡ some t
          → Has (codes "ldap_address") toml.as_str t a.ldap_address
          → Has (codes "user_directory") toml.as_str t a.user_directory
          → Has (codes "rdn_identifier") toml.as_str t a.rdn_identifier
          → Has (codes "recursive") toml.as_bool t a.recursive
          → m ≡ authentication a
          → Describes name payload m
      is_max_body_size :
          (t : Table) (limit : ℤ)
          → name ≡ codes "MaxBodySize"
          → toml.as_table payload ≡ some t
          → Has (codes "limit") toml.as_integer t limit
          → m ≡ max_body_size (record { limit = limit })
          → Describes name payload m
      is_custom_error_pages :
          (t : Table) (location : Text) (errors : List Value)
          → name ≡ codes "CustomErrorPages"
          → toml.as_table payload ≡ some t
          → Has (codes "location") toml.as_str t location
          → Has (codes "errors") toml.as_array t errors
          → m
            ≡ custom_error_pages (record {
              location = location;
              errors = map as_u16 (filter_map toml.as_integer errors);
            })
          → Describes name payload m

  field-Has :
      {A : Type 0} (key : Text) (accessor : Value → Option A) (t : Table) {a : A}
      → field toml key accessor t ≡ ok a
      → Has key accessor t a
  unfolding field
  field-Has {A} key accessor t {a} h = and_then-eq-some (toml.get key t) accessor (read _ h)
    where
      read : (o : Option A) → ok_or {E = Text} o [] ≡ ok a → o ≡ some a
      read none e = cc
      read (some x) e = cc

  Has-field :
      {A : Type 0} (key : Text) (accessor : Value → Option A) (t : Table) {a : A}
      → Has key accessor t a
      → field toml key accessor t ≡ ok a
  unfolding field
  Has-field key accessor t (v, found, read) = rw (found, read) refl

  of_u64 : (i : ℤ) {n : ℕ} → to_u64 i ≡ some n → i ≡ pos n
  of_u64 (pos k) e = cc
  of_u64 (negsuc k) e = cc

  nonnegative :
      (key : Text) (t : Table) (n : ℕ)
      → Has key (λ v. and_then (toml.as_integer v) to_u64) t n
      → Has key toml.as_integer t (pos n)
  nonnegative key t n (v, found, read) =
      let (i, integer, fits) = and_then-eq-some (toml.as_integer v) to_u64 read in
      (v, found, integer ∙ ap some (of_u64 i fits))

  as_u64 :
      (key : Text) (t : Table) (n : ℕ)
      → Has key toml.as_integer t (pos n)
      → Has key (λ v. and_then (toml.as_integer v) to_u64) t n
  as_u64 key t n (v, found, read) = (v, found, rw read refl)

  module _ {Map : Type 0} (maps : LinkedHashMap Map) where
    rate_limiter_from-Describes :
        (payload : Value) (t : Table) {m : Middleware Map}
        → toml.as_table payload ≡ some t
        → rate_limiter_from toml maps t ≡ ok m
        → Describes maps (codes "RateLimiter") payload m
    unfolding rate_limiter_from
    rate_limiter_from-Describes payload t is_table h =
        let (limit, e, h1) = >>=-eq-ok (field toml (codes "limit") _ t) _ h in
        let (window_sec, f, h2) = >>=-eq-ok (field toml (codes "window_sec") _ t) _ h1 in
        is_rate_limiter t limit window_sec refl is_table
          (nonnegative (codes "limit") t limit (field-Has (codes "limit") _ t e))
          (nonnegative (codes "window_sec") t window_sec (field-Has (codes "window_sec") _ t f))
          (cc)

    authentication_from-Describes :
        (payload : Value) (t : Table) {m : Middleware Map}
        → toml.as_table payload ≡ some t
        → authentication_from toml t ≡ ok m
        → Describes maps (codes "Authentication") payload m
    unfolding authentication_from
    authentication_from-Describes payload t is_table h =
        let (address, e, h1) = >>=-eq-ok (field toml (codes "ldap_address") _ t) _ h in
        let (directory, f, h2) = >>=-eq-ok (field toml (codes "user_directory") _ t) _ h1 in
        let (identifier, g, h3) = >>=-eq-ok (field toml (codes "rdn_identifier") _ t) _ h2 in
        let (recursive, i, h4) = >>=-eq-ok (field toml (codes "recursive") _ t) _ h3 in
        is_authentication t
          (record {
            ldap_address = address;
            user_directory = directory;
            rdn_identifier = identifier;
            recursive = recursive;
          })
          refl is_table (field-Has (codes "ldap_address") _ t e)
          (field-Has (codes "user_directory") _ t f) (field-Has (codes "rdn_identifier") _ t g)
          (field-Has (codes "recursive") _ t i) (cc)

    max_body_size_from-Describes :
        (payload : Value) (t : Table) {m : Middleware Map}
        → toml.as_table payload ≡ some t
        → max_body_size_from toml t ≡ ok m
        → Describes maps (codes "MaxBodySize") payload m
    unfolding max_body_size_from
    max_body_size_from-Describes payload t is_table h =
        let (limit, e, h1) = >>=-eq-ok (field toml (codes "limit") _ t) _ h in
        is_max_body_size t limit refl is_table (field-Has (codes "limit") _ t e) (cc)

    custom_error_pages_from-Describes :
        (payload : Value) (t : Table) {m : Middleware Map}
        → toml.as_table payload ≡ some t
        → (custom_error_pages_from toml t >>= λ pages. ok (custom_error_pages pages)) ≡ ok m
        → Describes maps (codes "CustomErrorPages") payload m
    unfolding custom_error_pages_from
    custom_error_pages_from-Describes payload t is_table h =
        let (pages, made, h1) = >>=-eq-ok (custom_error_pages_from toml t) _ h in
        let (location, e, h2) = >>=-eq-ok (field toml (codes "location") _ t) _ made in
        let (errors, f, h3) = >>=-eq-ok (field toml (codes "errors") _ t) _ h2 in
        is_custom_error_pages t location errors refl is_table (field-Has (codes "location") _ t e)
          (field-Has (codes "errors") _ t f) (cc)

    named :
        (name key : Text) (payload : Value) {m : Middleware Map}
        → (name == key) ≡ true
        → Describes maps key payload m
        → Describes maps name payload m
    named name key payload {m} e d =
        subst (λ n. Describes maps n payload m) (sym ((eq_iff name key).0 e)) d

    table-Describes :
        (name : Text) (payload : Value) (t : Table) {m : Middleware Map}
        → toml.as_table payload ≡ some t
        → middleware_of_table toml maps name t ≡ ok m
        → Describes maps name payload m
    unfolding middleware_of_table
    table-Describes name payload t is_table h = elim (Bool-cases (name == codes "RateLimiter")) [
      | inl e ↦
          named name (codes "RateLimiter") payload e
            (rate_limiter_from-Describes payload t is_table (rw e at h))
      | inr e ↦ elim (Bool-cases (name == codes "Authentication")) [
        | inl f ↦
            named name (codes "Authentication") payload f
              (authentication_from-Describes payload t is_table (rw (e, f) at h))
        | inr f ↦ elim (Bool-cases (name == codes "MaxBodySize")) [
          | inl g ↦
              named name (codes "MaxBodySize") payload g
                (max_body_size_from-Describes payload t is_table (rw (e, f, g) at h))
          | inr g ↦ elim (Bool-cases (name == codes "CustomErrorPages")) [
            | inl i ↦
                named name (codes "CustomErrorPages") payload i
                  (custom_error_pages_from-Describes payload t is_table (rw (e, f, g, i) at h))
            | inr i ↦ cc (rw (e, f, g, i) at h)
          ]
        ]
      ]
    ]

    pub middleware_from-Describes :
        (name : Text) (payload : Value) {m : Middleware Map}
        → middleware_from toml maps (name, payload) ≡ ok m
        → Describes maps name payload m
    unfolding middleware_from
    middleware_from-Describes name payload {m} h = elim (Bool-cases (name == codes "Compression")) [
      | inl e ↦ named name (codes "Compression") payload e (is_compression refl (cc (rw e at h)))
      | inr e ↦ elim (Bool-cases (name == codes "HttpsRedirector")) [
        | inl f ↦
            named name (codes "HttpsRedirector") payload f
              (is_https_redirector refl (cc (rw (e, f) at h)))
        | inr f ↦ of_table (toml.as_table payload) refl (rw (e, f) at h)
      ]
    ]
      where
        of_table :
            (o : Option Table)
            → toml.as_table payload ≡ o
            → (elim o [ none ↦ err [] | some t ↦ middleware_of_table toml maps name t ]) ≡ ok m
            → Describes maps name payload m
        of_table none is e = cc
        of_table (some t) is e = table-Describes name payload t is e

    pub Describes-middleware_from :
        (name : Text) (payload : Value) {m : Middleware Map}
        → Describes maps name payload m
        → middleware_from toml maps (name, payload) ≡ ok m
    unfolding middleware_from middleware_of_table rate_limiter_from authentication_from
        max_body_size_from custom_error_pages_from ◌==◌
    Describes-middleware_from name payload (is_compression e made) = rw (e, made) refl
    Describes-middleware_from name payload (is_https_redirector e made) = rw (e, made) refl
    Describes-middleware_from name payload (is_rate_limiter t l w e is_table hl hw made) =
        rw
          (
            e,
            is_table,
            e,
            made,
            Has-field (codes "limit") _ t (as_u64 (codes "limit") t l hl),
            Has-field (codes "window_sec") _ t (as_u64 (codes "window_sec") t w hw),
          )
          refl
    Describes-middleware_from name payload (is_authentication t a e is_table ha hu hr hc made) =
        rw
          (
            e,
            is_table,
            e,
            made,
            Has-field (codes "ldap_address") _ t ha,
            Has-field (codes "user_directory") _ t hu,
            Has-field (codes "rdn_identifier") _ t hr,
            Has-field (codes "recursive") _ t hc,
          )
          refl
    Describes-middleware_from name payload (is_max_body_size t l e is_table hl made) =
        rw (e, is_table, e, made, Has-field (codes "limit") _ t hl) refl
    Describes-middleware_from name payload (is_custom_error_pages t l es e is_table hl he made) =
        rw
          (
            e,
            is_table,
            e,
            made,
            Has-field (codes "location") _ t hl,
            Has-field (codes "errors") _ t he,
          )
          refl
