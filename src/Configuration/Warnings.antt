-- ===== src/Configuration/Warnings.antt =====
-- The warnings of src/configuration.rs on what is configured.
mod Tests
use mathlib.Core.Path.{subst}
use another_rust_load_balanc.Prelude.Panics.{>>=-eq-done, done-injective}
use another_rust_load_balanc.Prelude.{
  arith, sym, All, some, get_elem?, ◌+◌, ℕ, suc, ◌≡◌, refl, Text, Bool, true, false, not, Option,
  List, [], ◌∷◌, ◌++◌, In, map, is_empty, any, Outcome, done, if◌then◌else◌, inl, inr, Bool-cases,
}
use another_rust_load_balanc.Http.{Http, Request, SocketAddr}
use another_rust_load_balanc.Scheme.{Scheme}
use another_rust_load_balanc.ErrorResponse.{bad_gateway}
use another_rust_load_balanc.Matcher.{Matching}
use another_rust_load_balanc.Matcher.Pom.{Pom}
use another_rust_load_balanc.Matcher.Grammar.{Accepted}
use another_rust_load_balanc.LoadBalancing.Dispatch as Dispatch
use another_rust_load_balanc.Middleware.RateLimiter.{LinkedHashMap}
use another_rust_load_balanc.Middleware.Chain as Chain
use another_rust_load_balanc.Server.{BackendPool, Client, supports, serve, working_addresses}
use another_rust_load_balanc.Configuration.{Toml, BackendPoolConfig}
use another_rust_load_balanc.Configuration.Pools.{pool_from, pools_from}
use another_rust_load_balanc.Configuration.Made.{healthy-working, pool_from-fields}
use another_rust_load_balanc.Configuration.Runtime.{TomlConfig, RuntimeConfig}

-- The warnings, by what they say: no pool; a pool that is unreachable, since it has no schemes; a
-- pool without addresses, which always results in bad gateway errors.
pub data Warning : Type 0 where
  no_backend_pool : Warning
  unreachable : ℕ → Warning
  always_bad_gateway : ℕ → Warning

abbrev pub only_if : Bool → Warning → List Warning
only_if true warning = warning ∷ []
only_if false warning = []

module _ {Table : Type 0} where
  abbrev pub warnings_of : ℕ → BackendPoolConfig Table → List Warning
  warnings_of index pool =
      only_if (is_empty pool.schemes) (unreachable index)
      ++ only_if (is_empty pool.addresses) (always_bad_gateway index)

  -- The loop over the pools with their indices.
  unfoldable pub pool_warnings : ℕ → List (BackendPoolConfig Table) → List Warning
  pool_warnings index [] = []
  pool_warnings index (pool ∷ pools) = warnings_of index pool ++ pool_warnings (suc index) pools

  unfoldable pub print_warnings : TomlConfig Table → List Warning
  unfolding pool_warnings
  print_warnings self =
      only_if (is_empty self.backend_pools) no_backend_pool ++ pool_warnings 0 self.backend_pools

-- The index of the pool that a warning is about.
abbrev pub index_of : Warning → ℕ
index_of no_backend_pool = 0
index_of (unreachable index) = index
index_of (always_bad_gateway index) = index

module _ {P Q : Warning → Type 0} where
  All-weaken : (l : List Warning) → ((w : Warning) → P w → Q w) → All P l → All Q l
  All-weaken [] f h = tt
  All-weaken (w ∷ l) f h = (f w h.0, All-weaken l f h.1)

module _ (P : Warning → Type 0) where
  All-append : (l m : List Warning) → All P l → All P m → All P (l ++ m)
  All-append [] m h k = k
  All-append (w ∷ l) m h k = (h.0, All-append l m h.1 k)

  All-only_if : (b : Bool) (w : Warning) → (b ≡ true → P w) → All P (only_if b w)
  All-only_if true w h = (h refl, tt)
  All-only_if false w h = tt

no_scheme :
    {Headers Body Map : Type 0} (pool : BackendPool Headers Body Map)
    → is_empty pool.schemes ≡ true
    → (scheme : Scheme) → supports pool scheme ≡ false
unfolding supports
no_scheme pool none_there scheme = ground (arith, pool.schemes)

module _ {Value Table Headers HeaderValue Body Map Connection : Type 0} (toml : Toml Value Table)
    (maps : LinkedHashMap Map) (pom : Pom) (accepted : Accepted)
    (make_client : Option ℕ → Option ℕ → Client Headers Body)
    (hyper : Http Headers HeaderValue Body) (matching : Matching) (balancing : Dispatch.Outside)
    (outside : Chain.Outside HeaderValue Body Map Connection) where
  -- What a warning says of a pool.
  abbrev pub Says : Warning → BackendPool Headers Body Map → Type 0
  Says no_backend_pool pool = ⊥
  Says (unreachable index) pool = (scheme : Scheme) → supports pool scheme ≡ false
  Says (always_bad_gateway index) pool =
      (meanwhile : List Dispatch.Notification) (request : Request Headers Body) (scheme : Scheme)
      (client_address : SocketAddr)
      → serve hyper matching balancing outside meanwhile pool request scheme client_address
        ≡ done (pool, bad_gateway hyper)

  abbrev Located : ℕ → List (BackendPool Headers Body Map) → Warning → Type 0
  Located start pools warning =
      (i : ℕ) × (pool : BackendPool Headers Body Map) × (index_of warning ≡ start + i)
      × (get_elem? pools i ≡ some pool)
      × Says warning pool

  -- What a warning says of the pools that are made.
  abbrev pub IsTrue : List (BackendPool Headers Body Map) → Warning → Type 0
  IsTrue pools no_backend_pool = pools ≡ []
  IsTrue pools (unreachable index) =
      (pool : BackendPool Headers Body Map) × (get_elem? pools index ≡ some pool)
      × Says (unreachable index) pool
  IsTrue pools (always_bad_gateway index) =
      (pool : BackendPool Headers Body Map) × (get_elem? pools index ≡ some pool)
      × Says (always_bad_gateway index) pool

  warnings_of-Located :
      (start : ℕ) (config : BackendPoolConfig Table) {pool : BackendPool Headers Body Map}
      (pools : List (BackendPool Headers Body Map))
      → pool_from toml maps pom accepted make_client config ≡ done pool
      → All (Located start (pool ∷ pools)) (warnings_of start config)
  unfolding serve
  warnings_of-Located start config {pool} pools made =
      let (addresses, strategy, schemes) =
        pool_from-fields toml maps pom accepted make_client config made in
      let working = healthy-working pool config.addresses addresses in
      All-append (Located start (pool ∷ pools)) _ _
        (All-only_if (Located start (pool ∷ pools)) (is_empty config.schemes) (unreachable start)
          (λ none_there. (0, pool, omega arith, refl, no_scheme pool (rw schemes none_there))))
        (All-only_if (Located start (pool ∷ pools)) (is_empty config.addresses)
          (always_bad_gateway start)
          (λ none_there. (
            0,
            pool,
            omega arith,
            refl,
            λ meanwhile request scheme client_address. rw (working, none_there) refl,
          )))

  pool_warnings-Located :
      (start : ℕ) (configs : List (BackendPoolConfig Table))
      {pools : List (BackendPool Headers Body Map)}
      → pools_from toml maps pom accepted make_client configs ≡ done pools
      → All (Located start pools) (pool_warnings start configs)
  unfolding pool_warnings pools_from
  pool_warnings-Located start [] made = tt
  pool_warnings-Located start (config ∷ configs) {pools} made =
      let (pool, first, rest) =
        >>=-eq-done (pool_from toml maps pom accepted make_client config) _ made in
      let (others, second, last) =
        >>=-eq-done (pools_from toml maps pom accepted make_client configs) _ rest in
      subst
        (λ (l : List (BackendPool Headers Body Map)).
          All (Located start l) (pool_warnings start (config ∷ configs)))
        (done-injective last)
        (All-append (Located start (pool ∷ others)) (warnings_of start config) _
          (warnings_of-Located start config others first)
          (All-weaken (pool_warnings (suc start) configs)
            (λ w h. (suc h.0, h.1, (let at = h.2 in omega arith), h.3, h.4))
            (pool_warnings-Located (suc start) configs second)))

  Located-IsTrue :
      (pools : List (BackendPool Headers Body Map)) (w : Warning)
      → Located 0 pools w
      → IsTrue pools w
  Located-IsTrue pools no_backend_pool (i, pool, at, found, says) = elim says [ ]
  Located-IsTrue pools (unreachable index) (i, pool, at, found, says) =
      let same : index ≡ i = omega arith in (pool, rw same found, says)
  Located-IsTrue pools (always_bad_gateway index) (i, pool, at, found, says) =
      let same : index ≡ i = omega arith in (pool, rw same found, says)

  no_pool :
      (configs : List (BackendPoolConfig Table)) {pools : List (BackendPool Headers Body Map)}
      → pools_from toml maps pom accepted make_client configs ≡ done pools
      → is_empty configs ≡ true
      → pools ≡ []
  unfolding pools_from
  no_pool [] made none_there = sym (done-injective made)
  no_pool (config ∷ configs) made none_there = cc

  -- Every warning that is printed of a file whose pools can be made is true of these pools: there
  -- is none; or the pool at the index takes no scheme; or the pool at the index answers every
  -- request that it serves with the response 502, and does not change.
  pub print_warnings-IsTrue :
      (self : TomlConfig Table) (pools : List (BackendPool Headers Body Map))
      → pools_from toml maps pom accepted make_client self.backend_pools ≡ done pools
      → All (IsTrue pools) (print_warnings self)
  unfolding print_warnings
  print_warnings-IsTrue self pools made =
      All-append (IsTrue pools) _ _
        (All-only_if (IsTrue pools) (is_empty self.backend_pools) no_backend_pool
          (λ none_there. no_pool self.backend_pools made none_there))
        (All-weaken (pool_warnings 0 self.backend_pools) (Located-IsTrue pools)
          (pool_warnings-Located 0 self.backend_pools made))
