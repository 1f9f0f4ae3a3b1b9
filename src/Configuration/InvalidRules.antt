-- ===== src/Configuration/InvalidRules.antt =====
-- A file of src/configuration.rs with a pool whose rule src/backend_pool_matcher.rs cannot parse.
use another_rust_load_balanc.Prelude.{
  ℕ, Text, ◌≡◌, refl, sym, Option, List, [], ◌∷◌, In, Result, ok, panic, inl, inr,
}
use another_rust_load_balanc.Prelude.Panics.{Outcome-cases}
use another_rust_load_balanc.Prelude.Tasks.{panicked}
use another_rust_load_balanc.Http.{SocketAddr}
use another_rust_load_balanc.Tls.{IoError, CertifiedKey, Files}
use another_rust_load_balanc.Acme.Ordering.{AcmeLib}
use another_rust_load_balanc.Middleware.RateLimiter.{LinkedHashMap}
use another_rust_load_balanc.Matcher.{BackendPoolMatcher}
use another_rust_load_balanc.Matcher.Pom.{Pom, PomLaws}
use another_rust_load_balanc.Matcher.Grammar.{Accepted, from}
use another_rust_load_balanc.Matcher.Grammar.Spelling.{Rule}
use another_rust_load_balanc.Matcher.Grammar.Rules.{from_iff}
use another_rust_load_balanc.Server.{Client}
use another_rust_load_balanc.Configuration.{Toml, BackendPoolConfig}
use another_rust_load_balanc.Configuration.Pools.{pool_from, pools_from}
use another_rust_load_balanc.Configuration.Runtime.{TomlConfig, RuntimeConfig, Loading}
use another_rust_load_balanc.Configuration.Reading.{read, config_dir_of}
use another_rust_load_balanc.Configuration.Watching.{write, on_event}
use another_rust_load_balanc.Configuration.Reloading.{on_event_panics}

module _ {Value Table Headers Body Map : Type 0} (toml : Toml Value Table)
    (maps : LinkedHashMap Map) (pom : Pom) (laws : PomLaws pom) (accepted : Accepted)
    (make_client : Option ℕ → Option ℕ → Client Headers Body) where
  -- The text spells no rule.
  abbrev pub IsNoRule : Text → Type 0
  IsNoRule text = (m : BackendPoolMatcher) → Rule accepted m text → ⊥

  pool_from_panics :
      (config : BackendPoolConfig Table)
      → IsNoRule config.matcher
      → pool_from toml maps pom accepted make_client config ≡ panic
  unfolding pool_from
  pool_from_panics config bad = elim (Outcome-cases (from pom accepted config.matcher)) [
    | inl (m, is) ↦ absurd (bad m ((from_iff pom laws accepted config.matcher m).0 is))
    | inr fails ↦ rw (fails, pool_from) refl
  ]

  pools_from_panics :
      (configs : List (BackendPoolConfig Table)) (config : BackendPoolConfig Table)
      → In config configs
      → IsNoRule config.matcher
      → pools_from toml maps pom accepted make_client configs ≡ panic
  unfolding pools_from
  pools_from_panics [] config within bad = elim within [ ]
  pools_from_panics (c ∷ configs) config (inl same) bad =
      rw (pool_from_panics c (rw (sym same) at bad), pools_from) refl
  pools_from_panics (c ∷ configs) config (inr within) bad =
      elim (Outcome-cases (pool_from toml maps pom accepted make_client c)) [
        | inr fails ↦ rw (fails, pools_from) refl
        | inl (pool, is) ↦ rw (is, pools_from_panics configs config within bad, pools_from) refl
      ]

  -- When the file that was written has a pool whose matcher spells no rule, and the file, its
  -- directory and its two addresses can be read, the turn of the watcher panics, whatever the old
  -- configuration.
  pub on_event-invalid_rule :
      {Cert SigningKey : Type 0} (lib : AcmeLib) (rounds : ℕ) (files : Files Cert SigningKey)
      (loading : Loading Table Cert SigningKey) (read_to_string : Text → Result Text IoError)
      (path dir : Text) (file : TomlConfig Table) (http_address https_address : SocketAddr)
      (old_config : RuntimeConfig Headers Body Map (CertifiedKey Cert SigningKey))
      (config : BackendPoolConfig Table)
      → let pools = pools_from toml maps pom accepted make_client in
        read lib rounds files loading pools read_to_string path ≡ ok file
        → config_dir_of lib rounds files loading pools path ≡ ok dir
        → loading.parse_address file.http_address ≡ ok http_address
        → loading.parse_address file.https_address ≡ ok https_address
        → In config file.backend_pools
        → IsNoRule config.matcher
        → on_event lib rounds files loading pools read_to_string (write path) old_config ≡ panicked
  on_event-invalid_rule lib rounds files loading read_to_string path dir file a b old_config config
        e1 e2 e3 e4 within bad =
      on_event_panics lib rounds files loading (pools_from toml maps pom accepted make_client)
        read_to_string path dir file a b old_config e1 e2 e3 e4
        (pools_from_panics file.backend_pools config within bad)
