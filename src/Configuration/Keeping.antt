-- ===== src/Configuration/Keeping.antt =====
-- Reading the configuration in src/configuration.rs leaves the open challenges as they were.
use another_rust_load_balanc.Prelude.{
  ℕ, Text, ◌≡◌, ◌∙◌, Bool, not, ◌||◌, if◌then◌else◌, List, [], ◌∷◌, All, Result, ok, Outcome,
}
use another_rust_load_balanc.Prelude.Maps.{HashMap, insert}
use another_rust_load_balanc.Prelude.Tasks as Tasks
use another_rust_load_balanc.Prelude.Tasks.{Task, ended, panicked}
use another_rust_load_balanc.Tls.{IoError, CertifiedKey, Files, invalid_data, load_certified_key}
use another_rust_load_balanc.Acme.{AcmeHandler}
use another_rust_load_balanc.Acme.Challenges.{IsFresh}
use another_rust_load_balanc.Acme.Ordering.{
  AcmeLib, initiate_challenge, generate_and_validate_challenge,
}
use another_rust_load_balanc.Acme.Orders.{initiate_challenge-closes}
use another_rust_load_balanc.Server.{BackendPool}
use another_rust_load_balanc.Configuration.{BackendPoolConfig}
use another_rust_load_balanc.Configuration.Loads.{
  ◌>>=◌, lift, lift_outcome, succeed, succeed-Keeps, Keeps, lift-Keeps, lift_outcome-Keeps,
  bind-Keeps, lift-bind-Keeps, Keeps-if,
}
use another_rust_load_balanc.Configuration.Runtime.{
  CertificateConfig, local, acme, TomlConfig, Loading, is_acme, failing_as,
}
use another_rust_load_balanc.Configuration.Certificates.{
  ordered, cross_checked, acme_key, create_certified_key, load_certificates,
}
use another_rust_load_balanc.Configuration.Reading.{
  runtime_config_from_toml_config, read, config_dir_of, read_runtime_config,
}

same_after :
    {A : Type 0} {a b : Result A IoError} {between after : AcmeHandler}
    → ◌≡◌ {A = Task (Result A IoError × AcmeHandler)} (ended (a, between)) (ended (b, after))
    → after ≡ between
same_after h = cc

module _ {Table Cert SigningKey : Type 0} (lib : AcmeLib) (rounds : ℕ)
    (files : Files Cert SigningKey) (loading : Loading Table Cert SigningKey)
    (handler : AcmeHandler) where
  -- No challenge is open of a token that an order would bring.
  abbrev pub IsQuiet : Type 0
  IsQuiet =
      (acc : lib.Account) (name : Text) (ord_new : lib.NewOrder)
      → lib.new_order acc name ≡ ok ord_new
      → All (IsFresh handler) (generate_and_validate_challenge lib rounds ord_new).0

  module _ (quiet : IsQuiet) where
    ordered-Keeps :
        (staging : Bool) (persist_dir email name : Text)
        → Keeps handler (ordered lib rounds files loading staging persist_dir email name)
    ordered-Keeps staging persist_dir email name result after h =
        let (r, first, last) =
          Tasks.>>=-eq-ended (initiate_challenge lib rounds staging persist_dir email name handler)
            _ h in
        let closed =
          initiate_challenge-closes lib rounds staging persist_dir email name handler
            (λ acc ord_new taken. quiet acc name ord_new taken) r.0 r.1 first in
        same_after last ∙ closed

    cross_checked-Keeps :
        (name : Text) (key : CertifiedKey Cert SigningKey)
        → Keeps handler (cross_checked lib rounds files loading name key)
    cross_checked-Keeps name key =
        lift-bind-Keeps handler (failing_as invalid_data (loading.cross_check key name))
          (λ _. lift (ok key)) (λ _. lift-Keeps handler (ok key))

    create-Keeps :
        (config_dir : Text) (config : CertificateConfig) (name : Text)
        → Keeps handler (create_certified_key lib rounds files loading config_dir config name)
    unfolding create_certified_key
    create-Keeps config_dir (local c k) name =
        let loaded =
          load_certified_key files (loading.join config_dir c) (loading.join config_dir k) in
        bind-Keeps handler (lift_outcome loaded) (cross_checked lib rounds files loading name)
          (lift_outcome-Keeps handler loaded) (cross_checked-Keeps name)
    create-Keeps config_dir (acme staging email dir) name =
        bind-Keeps handler
          (ordered lib rounds files loading staging (loading.join config_dir dir) email name)
          (λ c.
            lift (acme_key lib rounds files loading name c)
            >>= cross_checked lib rounds files loading name)
          (ordered-Keeps staging (loading.join config_dir dir) email name)
          (λ c.
            lift-bind-Keeps handler (acme_key lib rounds files loading name c)
              (cross_checked lib rounds files loading name) (cross_checked-Keeps name))

    pub load-Keeps :
        (init_acme : Bool) (config_dir : Text) (configs : List (Text × CertificateConfig))
        (certificates : HashMap (CertifiedKey Cert SigningKey))
        → Keeps handler
            (load_certificates lib rounds files loading init_acme config_dir configs certificates)
    unfolding load_certificates
    load-Keeps init_acme config_dir [] certificates = lift-Keeps handler (ok certificates)
    load-Keeps init_acme config_dir ((sni, config) ∷ configs) certificates =
        let create = create_certified_key lib rounds files loading config_dir config in
        let load = load_certificates lib rounds files loading init_acme config_dir configs in
        let more = λ (n : Text). create n >>= λ key. load (insert n key certificates) in
        lift-bind-Keeps handler (failing_as invalid_data (loading.dns_name sni))
          (λ n. if init_acme || not (is_acme config) then more n else load certificates)
          (λ n.
            Keeps-if handler (init_acme || not (is_acme config)) (more n) (load certificates)
              (bind-Keeps handler (create n) (λ key. load (insert n key certificates))
                (create-Keeps config_dir config n)
                (λ key. load-Keeps init_acme config_dir configs (insert n key certificates)))
              (load-Keeps init_acme config_dir configs certificates))

    module _ {Headers Body Map : Type 0}
        (pools_from : List (BackendPoolConfig Table)
          → Outcome (List (BackendPool Headers Body Map))) where
      runtime-Keeps :
          (config_dir : Text) (file : TomlConfig Table) (init_acme : Bool)
          → Keeps handler (
              runtime_config_from_toml_config lib rounds files loading pools_from config_dir file
                init_acme)
      unfolding runtime_config_from_toml_config
      runtime-Keeps config_dir file init_acme =
          lift-bind-Keeps handler
            (failing_as invalid_data (loading.parse_address file.http_address)) _
            λ a.
              lift-bind-Keeps handler
                (failing_as invalid_data (loading.parse_address file.https_address)) _
                λ b.
                  bind-Keeps handler (succeed (pools_from file.backend_pools)) _
                    (succeed-Keeps handler (pools_from file.backend_pools))
                    λ l.
                      bind-Keeps handler
                        (load_certificates lib rounds files loading init_acme config_dir
                          file.certificates [])
                        _ (load-Keeps init_acme config_dir file.certificates [])
                        λ c. λ result after h. cc

      pub read-Keeps :
          (read_to_string : Text → Result Text IoError) (path : Text) (init_acme : Bool)
          → Keeps handler (
              read_runtime_config lib rounds files loading pools_from read_to_string path init_acme)
      unfolding read_runtime_config
      read-Keeps read_to_string path init_acme =
          lift-bind-Keeps handler (read lib rounds files loading pools_from read_to_string path) _
            λ file.
              lift-bind-Keeps handler (config_dir_of lib rounds files loading pools_from path)
                (λ dir.
                  runtime_config_from_toml_config lib rounds files loading pools_from dir file
                    init_acme)
                λ dir. runtime-Keeps dir file init_acme
