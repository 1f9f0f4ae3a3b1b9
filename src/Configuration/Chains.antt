-- ===== src/Configuration/Chains.antt =====
-- The chains and strategies that src/configuration.rs builds.
use another_rust_load_balanc.Prelude.{
  Text, ◌≡◌, refl, sym, ap, ◌∙◌, List, [], ◌∷◌, ◌++◌, rev, inl, inr, ok, err,
}
use another_rust_load_balanc.Prelude.Results.{Result-cases}
use another_rust_load_balanc.LoadBalancing.Dispatch.Total.{IsReady}
use another_rust_load_balanc.Middleware.RateLimiter.{LinkedHashMap}
use another_rust_load_balanc.Middleware.Chain.{Middleware, MiddlewareChain, empty, entry}
use another_rust_load_balanc.Configuration.{
  Toml, middleware_from, chain_of_entries, chain_from, LoadBalancingStrategyConfig, sticky,
  by_random, by_ip, by_connections, by_turns, strategy_from,
}
use another_rust_load_balanc.Configuration.Describing.{
  Describes, middleware_from-Describes, Describes-middleware_from,
}

-- The middlewares of a chain, in the order in which requests pass them.
abbrev pub members : {Map : Type 0} → MiddlewareChain Map → List (Middleware Map)
members empty = []
members (entry middleware chain) = middleware ∷ members chain

module _ {Value Table Map : Type 0} (toml : Toml Value Table) (maps : LinkedHashMap Map) where
  -- The middlewares that the entries describe, in their order, without the entries that describe
  -- none.
  pub data Described : List (Text × Value) → List (Middleware Map) → Type 0 where
    no_entries : Described [] []
    taken :
        (name : Text) (payload : Value) (m : Middleware Map) (entries : List (Text × Value))
        (ms : List (Middleware Map))
        → Describes toml maps name payload m
        → Described entries ms
        → Described ((name, payload) ∷ entries) (m ∷ ms)
    left_out :
        (name : Text) (payload : Value) (entries : List (Text × Value)) (ms : List (Middleware Map))
        → ((m : Middleware Map) → Describes toml maps name payload m → ⊥)
        → Described entries ms
        → Described ((name, payload) ∷ entries) ms

  put :
      (e : Text × Value) (entries : List (Text × Value)) (chain : MiddlewareChain Map)
      {m : Middleware Map}
      → middleware_from toml maps e ≡ ok m
      → chain_of_entries toml maps (e ∷ entries) chain
        ≡ chain_of_entries toml maps entries (entry m chain)
  unfolding chain_of_entries
  put e entries chain made = rw (chain_of_entries, made) refl

  skip :
      (e : Text × Value) (entries : List (Text × Value)) (chain : MiddlewareChain Map) {x : Text}
      → middleware_from toml maps e ≡ err x
      → chain_of_entries toml maps (e ∷ entries) chain ≡ chain_of_entries toml maps entries chain
  unfolding chain_of_entries
  skip e entries chain failed = rw (chain_of_entries, failed) refl

  chain_of_entries-append :
      (before after : List (Text × Value)) (chain : MiddlewareChain Map)
      → chain_of_entries toml maps (before ++ after) chain
        ≡ chain_of_entries toml maps after (chain_of_entries toml maps before chain)
  unfolding chain_of_entries
  chain_of_entries-append [] after chain = refl
  chain_of_entries-append (e ∷ before) after chain =
      elim (Result-cases (middleware_from toml maps e)) [
        | inl (m, made) ↦
            put e (before ++ after) chain made
            ∙ chain_of_entries-append before after (entry m chain)
            ∙ ap (chain_of_entries toml maps after) (sym (put e before chain made))
        | inr (_, failed) ↦
            skip e (before ++ after) chain failed
            ∙ chain_of_entries-append before after chain
            ∙ ap (chain_of_entries toml maps after) (sym (skip e before chain failed))
      ]

  Described-entries :
      (entries : List (Text × Value))
      → Described entries (members (chain_of_entries toml maps (rev entries) empty))
  unfolding rev chain_of_entries
  Described-entries [] = no_entries
  Described-entries ((name, payload) ∷ entries) =
      let behind = chain_of_entries toml maps (rev entries) empty in
      rw (chain_of_entries-append (rev entries) ((name, payload) ∷ []) empty)
        (elim (Result-cases (middleware_from toml maps (name, payload))) [
          | inl (m, made) ↦ rw (put (name, payload) [] behind made) (
              taken name payload m entries (members behind)
                (middleware_from-Describes toml maps name payload made) (Described-entries entries))
          | inr (x, failed) ↦ rw (skip (name, payload) [] behind failed) (
              left_out name payload entries (members behind)
                (λ m d. cc (failed, Describes-middleware_from toml maps name payload d))
                (Described-entries entries))
        ])

  -- The chain of a table has the middlewares that the table's entries describe, in the order of
  -- the table; an entry that describes none, by its name or for a key that is missing or of
  -- another type, is left out and the others stay.
  pub chain_from-members :
      (other : Table) → Described (toml.entries other) (members (chain_from toml maps other))
  unfolding chain_from
  chain_from-members other = Described-entries (toml.entries other)

-- A strategy that was just configured has counted no backend, so that the selection among any
-- addresses is ready.
pub strategy_from-IsReady :
    (config : LoadBalancingStrategyConfig) (addresses : List Text)
    → IsReady (strategy_from config) addresses
unfolding strategy_from
strategy_from-IsReady (sticky name http_only secure site inner) addresses =
    strategy_from-IsReady inner addresses
strategy_from-IsReady by_random addresses = tt
strategy_from-IsReady by_ip addresses = tt
strategy_from-IsReady by_turns addresses = tt
strategy_from-IsReady by_connections addresses = tt
